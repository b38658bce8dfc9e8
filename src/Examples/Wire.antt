-- ===== src/Examples/Wire.antt =====
-- Frames on concrete messages.
use joycast.Prelude.{ℕ, zero, suc, ◌<◌, ◌≡◌, refl, List, [], ◌∷◌, ◌++◌, length, arith, ap, ◌⊎◌}
use joycast.Prelude.Outcome.{Result, ok, err}
use joycast.Prelude.Text.{to_decimal}
use Prim.Native.String.{◌++◌ as append}
use joycast.Protocol.{Message, ping, pong, Wire, encode}
use joycast.Protocol.Frame.{read_frame, write_frame, max_frame, write_u32}
use joycast.Protocol.Frame.Stream.{
  Fits, read_frames, write_frames, read_frame-write_frame, read_frame_too_large,
  read_frame_truncated, read_frames-write_frames,
}

unfoldable pub encode_small : Message → Result (List ℕ)
encode_small ping = ok (zero ∷ [])
encode_small pong = ok (zero ∷ zero ∷ [])
encode_small _ = err "not here"

unfoldable pub decode_small : List ℕ → Result Message
decode_small (zero ∷ []) = ok ping
decode_small (zero ∷ zero ∷ []) = ok pong
decode_small _ = err "not here"

pub decode_small-encode_small :
    (m : Message) (bytes : List ℕ) → encode_small m ≡ ok bytes → decode_small bytes ≡ ok m
unfolding encode_small decode_small
decode_small-encode_small m bytes h = ground arith

-- a ping is one byte and a pong two; nothing else is encoded
abbrev pub small : Wire
small = record {
  encode = encode_small;
  decode = decode_small;
  decode-encode = decode_small-encode_small;
}

ping-Fits : Fits small ping
unfolding encode_small
ping-Fits = (zero ∷ [], refl, omega arith)

pong-Fits : Fits small pong
unfolding encode_small
pong-Fits = (zero ∷ zero ∷ [], refl, omega arith)

read_frame-write_frame_example :
    (frame : List ℕ) × (write_frame small ping ≡ ok frame)
    × (read_frame small (frame ++ 7 ∷ []) ≡ ok (ping, 7 ∷ []))
read_frame-write_frame_example = read_frame-write_frame small ping (7 ∷ []) ping-Fits

read_frames-write_frames_example :
    (stream : List ℕ) × (write_frames small (ping ∷ pong ∷ []) ≡ ok stream)
    × (read_frames small 2 (stream ++ 7 ∷ []) ≡ ok (ping ∷ pong ∷ [], 7 ∷ []))
read_frames-write_frames_example =
    read_frames-write_frames small (ping ∷ pong ∷ []) (7 ∷ []) (ping-Fits, (pong-Fits, tt))

pong_encoded : encode small pong ≡ ok (zero ∷ zero ∷ [])
unfolding encode_small
pong_encoded = refl

pong_frame : write_frame small pong ≡ ok ((0 ∷ 0 ∷ 0 ∷ 2 ∷ 0 ∷ []) ++ 0 ∷ [])
unfolding write_frame encode_small write_u32
pong_frame = refl

read_frame_truncated_example :
    (read_frame small (0 ∷ 0 ∷ 0 ∷ 2 ∷ 0 ∷ []) ≡ err "Failed to read frame length")
    ⊎ (read_frame small (0 ∷ 0 ∷ 0 ∷ 2 ∷ 0 ∷ []) ≡ err "Failed to read frame payload")
read_frame_truncated_example =
    read_frame_truncated small pong (zero ∷ zero ∷ []) (0 ∷ 0 ∷ 0 ∷ 2 ∷ 0 ∷ []) [] 0 pong_encoded
      (omega arith) pong_frame

zeros : ℕ → List ℕ
zeros zero = []
zeros (suc n) = zero ∷ zeros n

length-zeros : (n : ℕ) → length (zeros n) ≡ n
unfolding zeros
length-zeros zero = refl
length-zeros (suc n) = ap suc (length-zeros n)

module _ (n : ℕ) where
  encode_padded : Message → Result (List ℕ)
  encode_padded ping = ok (zeros n)
  encode_padded _ = err "not here"

  padded_lem :
      (m : Message) (bytes : List ℕ)
      → encode_padded m ≡ ok bytes
      → Path (Result Message) (ok ping) (ok m)
  unfolding encode_padded
  padded_lem m bytes h = ground arith

  -- a ping is `n` bytes
  padded : Wire
  unfolding encode_padded
  padded = record { encode = encode_padded; decode = λ b. ok ping; decode-encode = padded_lem }

ping_padded : encode (padded 10485761) ping ≡ ok (zeros 10485761)
unfolding padded encode_padded
ping_padded = refl

large : max_frame < length (zeros 10485761)
large = rw (length-zeros 10485761) (omega arith)

not_huge : length (zeros 10485761) < 4294967296
not_huge = rw (length-zeros 10485761) (omega arith)

read_frame_too_large_example :
    (frame : List ℕ) × (write_frame (padded 10485761) ping ≡ ok frame)
    × (read_frame (padded 10485761) (frame ++ [])
        ≡ err (
            append "Frame size too large: "
              (append (to_decimal (length (zeros 10485761))) " bytes")))
read_frame_too_large_example =
    read_frame_too_large (padded 10485761) ping (zeros 10485761) [] ping_padded large not_huge
