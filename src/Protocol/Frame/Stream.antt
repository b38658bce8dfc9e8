-- ===== src/Protocol/Frame/Stream.antt =====
-- What one end writes, the other end reads: frames one by one, and a whole stream of them.
use joycast.Prelude.{
  ℕ, zero, suc, ◌≤◌, ◌<◌, ◌≡◌, refl, sym, ◌∙◌, ap, List, [], ◌∷◌, ◌++◌, length, arith, ◌⊎◌, inl,
  inr, length-append,
}
use joycast.Prelude.Outcome.{Result, ok, err, ◌>>=◌}
use mathlib.Core.List.{append_assoc}
use Prim.Native.String.{◌++◌ as append}
use joycast.Prelude.Text.{to_decimal}
use joycast.Protocol.{Message, Wire, encode}
use joycast.Protocol.Frame.{read_u32, read_exact, write_u32, read_frame, write_frame, max_frame}

read_u32-write_u32 :
    (n : ℕ) (rest : List ℕ) → n < 4294967296 → read_u32 (write_u32 n ++ rest) ≡ ok (n, rest)
unfolding read_u32 write_u32
read_u32-write_u32 n rest h = ap (λ (k : ℕ). ok (k, rest)) (omega arith)

read_exact-append :
    (bytes rest : List ℕ) → read_exact (length bytes) (bytes ++ rest) ≡ ok (bytes, rest)
unfolding read_exact
read_exact-append [] rest = refl
read_exact-append (b ∷ bytes) rest = rw (read_exact-append bytes rest)

read_exact_short :
    (n : ℕ) (bytes : List ℕ) → length bytes < n → read_exact n bytes ≡ err "early eof"
unfolding read_exact
read_exact_short zero bytes h = absurd (omega arith)
read_exact_short (suc n) [] h = refl
read_exact_short (suc n) (b ∷ bytes) h = rw (read_exact_short n bytes (omega arith))

module _ (wire : Wire) where
  read_frame-append :
      (message : Message) (bytes rest : List ℕ)
      → encode wire message ≡ ok bytes
      → length bytes ≤ max_frame
      → read_frame wire (write_u32 (length bytes) ++ (bytes ++ rest)) ≡ ok (message, rest)
  unfolding read_frame
  read_frame-append message bytes rest e fits =
      rw (read_u32-write_u32 (length bytes) (bytes ++ rest) (omega arith))
        (rw (read_exact-append bytes rest) (ground (arith, wire.decode-encode message bytes e)))

  write_frame_lem :
      (message : Message) (bytes : List ℕ)
      → encode wire message ≡ ok bytes
      → length bytes ≤ max_frame
      → write_frame wire message ≡ ok (write_u32 (length bytes) ++ bytes)
  unfolding write_frame
  write_frame_lem message bytes e fits =
      rw e (ap (λ (n : ℕ). ok (write_u32 n ++ bytes)) (omega arith))

  -- the message takes at most 10 MiB
  abbrev pub Fits : Message → Type 0
  Fits message = (bytes : List ℕ) × (encode wire message ≡ ok bytes) × (length bytes ≤ max_frame)

  -- A frame that was written is read back, with whatever follows it left on the stream, if the
  -- message takes at most 10 MiB.
  pub read_frame-write_frame :
      (message : Message) (rest : List ℕ)
      → Fits message
      → (frame : List ℕ) × (write_frame wire message ≡ ok frame)
        × (read_frame wire (frame ++ rest) ≡ ok (message, rest))
  read_frame-write_frame message rest (bytes, e, fits) = (
    write_u32 (length bytes) ++ bytes,
    write_frame_lem message bytes e fits,
    rw (append_assoc (write_u32 (length bytes)) bytes rest)
        (read_frame-append message bytes rest e fits),
  )

  -- A payload of more than 10 MiB (and less than 4 GiB) is written without complaint, and refused
  -- by every reader.
  pub read_frame_too_large :
      (message : Message) (bytes rest : List ℕ)
      → encode wire message ≡ ok bytes
      → max_frame < length bytes
      → length bytes < 4294967296
      → (frame : List ℕ) × (write_frame wire message ≡ ok frame)
        × (read_frame wire (frame ++ rest)
            ≡ err (append "Frame size too large: " (append (to_decimal (length bytes)) " bytes")))
  unfolding write_frame read_frame
  read_frame_too_large message bytes rest e large small = (
    write_u32 (length bytes) ++ bytes,
    rw e (ap (λ (n : ℕ). ok (write_u32 n ++ bytes)) (omega arith)),
    rw (append_assoc (write_u32 (length bytes)) bytes rest)
        (rw (read_u32-write_u32 (length bytes) (bytes ++ rest) small) (ground arith)),
  )

  truncated_payload :
      (n : ℕ) (bytes : List ℕ)
      → length bytes < n
      → n ≤ max_frame
      → read_frame wire (write_u32 n ++ bytes) ≡ err "Failed to read frame payload"
  unfolding read_frame
  truncated_payload n bytes h fits =
      rw (read_u32-write_u32 n bytes (omega arith)) (rw (read_exact_short n bytes h) (ground arith))

  -- A stream that ends within the frame of a message of at most 10 MiB gives an error, never a
  -- message.
  pub read_frame_truncated :
      (message : Message) (bytes part missing : List ℕ) (next : ℕ)
      → encode wire message ≡ ok bytes
      → length bytes ≤ max_frame
      → write_frame wire message ≡ ok (part ++ next ∷ missing)
      → (read_frame wire part ≡ err "Failed to read frame length")
        ⊎ (read_frame wire part ≡ err "Failed to read frame payload")
  unfolding read_frame read_u32 write_u32
  read_frame_truncated message bytes [] missing next e fits w = inl refl
  read_frame_truncated message bytes (a ∷ []) missing next e fits w = inl refl
  read_frame_truncated message bytes (a ∷ b ∷ []) missing next e fits w = inl refl
  read_frame_truncated message bytes (a ∷ b ∷ c ∷ []) missing next e fits w = inl refl
  read_frame_truncated message bytes (a ∷ b ∷ c ∷ d ∷ part) missing next e fits w =
      let same = sym w ∙ write_frame_lem message bytes e fits in
      let rest : part ++ next ∷ missing ≡ bytes = ground arith in
      let short : length part < length bytes =
        omega (arith, ap length rest, length-append part (next ∷ missing)) in
      let header : a ∷ b ∷ c ∷ d ∷ part ≡ write_u32 (length bytes) ++ part = ground arith in
      inr (ap (read_frame wire) header ∙ truncated_payload (length bytes) part short fits)

  -- the frames of several messages, one behind the other
  unfoldable pub write_frames : List Message → Result (List ℕ)
  write_frames [] = ok []
  write_frames (m ∷ ms) = do
    frame ← write_frame wire m
    frames ← write_frames ms
    ok (frame ++ frames)

  -- as many calls of `read_frame`, each on what the one before it left
  pub read_frames : ℕ → List ℕ → Result (List Message × List ℕ)
  read_frames zero bytes = ok ([], bytes)
  read_frames (suc n) bytes = do
    (message, rest) ← read_frame wire bytes
    (messages, rest') ← read_frames n rest
    ok (message ∷ messages, rest')

  abbrev pub AllFit : List Message → Type 0
  AllFit [] = Unit
  AllFit (m ∷ ms) = Fits m × AllFit ms

  -- A stream of frames, each message of which takes at most 10 MiB, is read back as the same
  -- messages in the same order, with what follows left on the stream.
  pub read_frames-write_frames :
      (ms : List Message) (rest : List ℕ)
      → AllFit ms
      → (stream : List ℕ) × (write_frames ms ≡ ok stream)
        × (read_frames (length ms) (stream ++ rest) ≡ ok (ms, rest))
  unfolding write_frames read_frames
  read_frames-write_frames [] rest h = ([], refl, refl)
  read_frames-write_frames (m ∷ ms) rest h =
      let (stream, w, r) = read_frames-write_frames ms rest h.1 in
      let (frame, v, q) = read_frame-write_frame m (stream ++ rest) h.0 in
      (frame ++ stream, rw v (rw w), rw (append_assoc frame stream rest, q) (rw r))
