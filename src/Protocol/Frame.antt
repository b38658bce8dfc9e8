-- ===== src/Protocol/Frame.antt =====
-- `read_frame` and `write_frame` of src/server.rs: a message behind its length, a big-endian `u32`.
-- A stream is the list of the bytes that are still to come; it ends where the peer closed it.
pub mod Stream
use joycast.Prelude.{
  ℕ, zero, suc, ◌+◌, ◌*◌, ◌/◌, ◌%◌, List, [], ◌∷◌, ◌++◌, length, ltb, if◌then◌else◌,
}
use joycast.Prelude.Outcome.{Result, ok, err, with_context, ◌>>=◌}
use Prim.Native.String.{◌++◌ as append}
use joycast.Prelude.Text.{to_decimal}
use joycast.Protocol.{Message, Wire, encode, decode}

-- `read_u32`
unfoldable pub read_u32 : List ℕ → Result (ℕ × List ℕ)
read_u32 (a ∷ b ∷ c ∷ d ∷ rest) = ok (((a * 256 + b) * 256 + c) * 256 + d, rest)
read_u32 _ = err "early eof"

-- `read_exact` into a buffer of `n` bytes
unfoldable pub read_exact : ℕ → List ℕ → Result (List ℕ × List ℕ)
read_exact zero bytes = ok ([], bytes)
read_exact (suc n) [] = err "early eof"
read_exact (suc n) (b ∷ bytes) = do (taken, rest) ← read_exact n bytes; ok (b ∷ taken, rest)

-- `write_u32` of a number below 2 ^ 32
unfoldable pub write_u32 : ℕ → List ℕ
write_u32 n = n / 16777216 ∷ n / 65536 % 256 ∷ n / 256 % 256 ∷ n % 256 ∷ []

-- 10 * 1024 * 1024
abbrev pub max_frame : ℕ
max_frame = 10485760

module _ (wire : Wire) where
  -- the message and the bytes behind it
  unfoldable pub read_frame : List ℕ → Result (Message × List ℕ)
  read_frame bytes = do
    (len, rest) ← with_context (read_u32 bytes) "Failed to read frame length"
    if ltb max_frame len
        then err (append "Frame size too large: " (append (to_decimal len) " bytes"))
        else do
          (buf, rest') ← with_context (read_exact len rest) "Failed to read frame payload"
          message ← with_context (decode wire buf) "Failed to decode message payload"
          ok (message, rest')

  -- the bytes that go to the stream; `as u32` keeps the low 32 bits of the length
  unfoldable pub write_frame : Message → Result (List ℕ)
  write_frame message = do
    bytes ← with_context (encode wire message) "Failed to encode message"
    ok (write_u32 (length bytes % 4294967296) ++ bytes)
