-- ===== src/Server/Iroh/Serve.antt =====
-- `handle_iroh_client` of src/server.rs on the bytes of its stream: it returns once the client has
-- closed the stream.
use joycast.Prelude.{
  ℕ, zero, suc, ◌≤◌, ◌<◌, String, ◌≡◌, refl, ap, Bool, true, false, List, [], ◌∷◌, length, arith,
  inl, inr, Bool-cases,
}
use joycast.Prelude.Outcome.{Result, ok, err, Codec, Result-cases}
use joycast.Trust.{TrustData}
use joycast.Protocol.{Message, Wire}
use joycast.Protocol.Frame.{read_u32, read_exact, read_frame}
use joycast.Server.{Moment}
use joycast.Server.Iroh.{Iroh, Input, Phase, greeting, streaming, closed, on_read, step}

unfoldable pub is_open : Phase → Bool
is_open (closed r) = false
is_open _ = true

read_u32_shorter :
    (stream rest : List ℕ) (n : ℕ) → read_u32 stream ≡ ok (n, rest) → length rest < length stream
unfolding read_u32
read_u32_shorter (a ∷ b ∷ c ∷ d ∷ rest') rest n h = ground arith
read_u32_shorter [] rest n h = absurd (ground arith)
read_u32_shorter (a ∷ []) rest n h = absurd (ground arith)
read_u32_shorter (a ∷ b ∷ []) rest n h = absurd (ground arith)
read_u32_shorter (a ∷ b ∷ c ∷ []) rest n h = absurd (ground arith)

read_exact_shorter :
    (n : ℕ) (stream taken rest : List ℕ)
    → read_exact n stream ≡ ok (taken, rest)
    → length rest ≤ length stream
unfolding read_exact
read_exact_shorter zero stream taken rest h = ground arith
read_exact_shorter (suc n) [] taken rest h = absurd (ground arith)
read_exact_shorter (suc n) (b ∷ stream) taken rest h = elim (Result-cases (read_exact n stream)) [
  | inl ((t, r), e) ↦ ground (arith, read_exact_shorter n stream t r e)
  | inr (x, e) ↦ absurd (ground arith)
]

module _ (wire : Wire) where
  -- A frame that is read takes bytes off the stream.
  read_frame_shorter :
      (stream rest : List ℕ) (message : Message)
      → read_frame wire stream ≡ ok (message, rest)
      → length rest < length stream
  unfolding read_frame
  read_frame_shorter stream rest message h = elim (Result-cases (read_u32 stream)) [
    | inl ((n, s), e) ↦ elim (Result-cases (read_exact n s)) [
      | inl ((t, r), f) ↦
          ground (arith, read_u32_shorter stream s n e, read_exact_shorter n s t r f)
      | inr (x, f) ↦ absurd (ground arith)
    ]
    | inr (x, e) ↦ absurd (ground arith)
  ]

  module _ (json : Codec TrustData String) (debug : Message → String)
      (world : ℕ → Moment × (Message → Result (Unit {0}))) where
    -- The loops of the handler, from round `i` on: what it reads is the next frame of the stream.
    unfoldable pub serve : ℕ → ℕ → List ℕ → Iroh → Iroh
    serve zero i stream c = c
    serve (suc fuel) i stream c = elim (is_open c.phase) [
      | false ↦ c
      | true ↦ elim (read_frame wire stream) [
        | ok (message, rest) ↦
            serve fuel (suc i) rest
              (step json debug (world i).0 (record { read = ok message; write = (world i).1 }) c)
        | err e ↦ step json debug (world i).0 (record { read = err e; write = (world i).1 }) c
      ]
    ]

    on_read_err :
        (m : Moment) (input : Input) (e : String) (ph : Phase) (c : Iroh)
        → c.phase ≡ ph
        → is_open (on_read json debug m input ph (err e) c).phase ≡ false
    unfolding on_read is_open
    on_read_err m input e greeting c p = refl
    on_read_err m input e (streaming key) c p = refl
    on_read_err m input e (closed r) c p = ap is_open p

    serve_ends :
        (fuel i : ℕ) (stream : List ℕ) (c : Iroh)
        → length stream < fuel
        → is_open (serve fuel i stream c).phase ≡ false
    unfolding serve step
    serve_ends zero i stream c h = absurd (omega arith)
    serve_ends (suc fuel) i stream c h = elim (Bool-cases (is_open c.phase)) [
      | inr shut ↦ rw (shut, serve) shut
      | inl live ↦ elim (Result-cases (read_frame wire stream)) [
        | inl ((message, rest), e) ↦
            let shorter = read_frame_shorter stream rest message e in
            rw (live, e, serve) (serve_ends fuel (suc i) rest _ (omega arith))
        | inr (x, e) ↦
            rw (live, e, serve)
              (on_read_err (world i).0 (record { read = err x; write = (world i).1 }) x c.phase c
                refl)
      ]
    ]

    serve_same :
        (fuel fuel' i : ℕ) (stream : List ℕ) (c : Iroh)
        → length stream < fuel
        → length stream < fuel'
        → serve fuel i stream c ≡ serve fuel' i stream c
    unfolding serve
    serve_same zero fuel' i stream c h k = absurd (omega arith)
    serve_same (suc fuel) zero i stream c h k = absurd (omega arith)
    serve_same (suc fuel) (suc fuel') i stream c h k = elim (Bool-cases (is_open c.phase)) [
      | inr shut ↦ rw (shut, serve) refl
      | inl live ↦ elim (Result-cases (read_frame wire stream)) [
        | inl ((message, rest), e) ↦
            let shorter = read_frame_shorter stream rest message e in
            rw (live, e, serve) (serve_same fuel fuel' (suc i) rest _ (omega arith) (omega arith))
        | inr (x, e) ↦ rw (live, e, serve) refl
      ]
    ]

    -- On a stream that the client closes after finitely many bytes, the loops of the handler end,
    -- after at most one round more than the stream has bytes: any two numbers of rounds above the
    -- length give the same, ended, connection.
    pub serve-is_open :
        (fuel fuel' : ℕ) (stream : List ℕ) (c : Iroh)
        → length stream < fuel
        → length stream < fuel'
        → (is_open (serve fuel 0 stream c).phase ≡ false)
          × (serve fuel' 0 stream c ≡ serve fuel 0 stream c)
    serve-is_open fuel fuel' stream c h k =
        (serve_ends fuel 0 stream c h, serve_same fuel' fuel 0 stream c k h)
