-- ===== src/Server/Iroh/Replay.antt =====
-- A stretch of the byte stream that `handle_iroh_client` reads in its main loop, and what the virtual
-- device makes of it.
use mathlib.Core.List.{append_assoc, append-nil}
use joycast.Prelude.{
  ℕ, suc, ◌+◌, String, ◌≡◌, refl, sym, ap, ◌∙◌, subst, true, some, List, [], ◌∷◌, ◌++◌, map, length,
  arith,
}
use joycast.Prelude.Outcome.{Result, ok, Codec}
use joycast.Prelude.Map.{string_eq, get, contains_key, eq_self}
use joycast.Prelude.Map.Laws.{get-modify}
use joycast.Trust.{TrustData}
use joycast.Protocol.{Message, handshake, handshake_ack, events, ping, pong, Wire}
use joycast.Protocol.Frame.{read_frame}
use joycast.Protocol.Frame.Stream.{AllFit, write_frames, read_frame-write_frame}
use joycast.Device.Output.{InputEvent, input_event, emit}
use joycast.Server.{Moment, SessionEntry, touch, play}
use joycast.Server.Udp.Events.{Takes, play_lem}
use joycast.Server.Iroh.{Iroh, Input, Phase, streaming, write, on_stream, on_read, step}
use joycast.Server.Iroh.Serve.{is_open, serve}

-- The batches that the messages ask the virtual device to emit; an empty one is not emitted.
abbrev pub batches : List Message → List (List InputEvent)
batches [] = []
batches (events (e ∷ es) ∷ ms) = map input_event (e ∷ es) ∷ batches ms
batches (_ ∷ ms) = batches ms

-- The handler is in its main loop, and its session is there.
abbrev pub Serves : String → SessionEntry → Iroh → Type 0
Serves key s c = (c.phase ≡ streaming key) × (get c.server.sessions key ≡ some s)

-- what the virtual device of a session has emitted
abbrev pub emitted : SessionEntry → List (List InputEvent)
emitted s = s.vdev.device.emitted

module _ (json : Codec TrustData String) where
  on_stream-Serves :
      (m : Moment) (i : Input) (key : String) (msg : Message) (s : SessionEntry) (c : Iroh)
      → Takes m.uinput
      → ((answer : Message) → i.write answer ≡ ok tt)
      → Serves key s c
      → (s' : SessionEntry) × Serves key s' (on_stream json m i key msg c)
        × (emitted s' ≡ emitted s ++ batches (msg ∷ []))
  unfolding on_stream contains_key write emit play touch
  on_stream-Serves m i key (events []) s c takes answers (p, there) = (
    play m [] s,
    (ground arith, ground (arith, get-modify c.server.sessions key key (play m []), eq_self key)),
    sym (append-nil (emitted s)),
  )
  on_stream-Serves m i key (events (e ∷ es)) s c takes answers (p, there) = (
    play m (e ∷ es) s,
    (
      ground arith,
      ground (arith, get-modify c.server.sessions key key (play m (e ∷ es)), eq_self key),
    ),
    ap (λ (x : SessionEntry). emitted x) (play_lem m e es s takes),
  )
  on_stream-Serves m i key ping s c takes answers (p, there) = (
    touch m s,
    (
      ground (arith, answers pong),
      ground (arith, answers pong, get-modify c.server.sessions key key (touch m), eq_self key),
    ),
    sym (append-nil (emitted s)),
  )
  on_stream-Serves m i key pong s c takes answers v = (s, v, sym (append-nil (emitted s)))
  on_stream-Serves m i key (handshake h) s c takes answers v = (s, v, sym (append-nil (emitted s)))
  on_stream-Serves m i key (handshake_ack st host text) s c takes answers v =
      (s, v, sym (append-nil (emitted s)))

  step-Serves :
      (debug : Message → String) (m : Moment) (i : Input) (key : String) (msg : Message)
      (s : SessionEntry) (c : Iroh)
      → i.read ≡ ok msg
      → Takes m.uinput
      → ((answer : Message) → i.write answer ≡ ok tt)
      → Serves key s c
      → (s' : SessionEntry) × Serves key s' (step json debug m i c)
        × (emitted s' ≡ emitted s ++ batches (msg ∷ []))
  unfolding step on_read
  step-Serves debug m i key msg s c x takes answers (p, there) =
      let (s', v, e) = on_stream-Serves m i key msg s c takes answers (p, there) in
      let same : step json debug m i c ≡ on_stream json m i key msg c =
        ap (λ (q : Phase). on_read json debug m i q i.read c) p
        ∙ ap (λ (r : Result Message). on_read json debug m i (streaming key) r c) x in
      (s', subst (Serves key s') (sym same) v, e)

batches-append : (ms ns : List Message) → batches (ms ++ ns) ≡ batches ms ++ batches ns
batches-append [] ns = refl
batches-append (events (e ∷ es) ∷ ms) ns =
    ap (λ (b : List (List InputEvent)). map input_event (e ∷ es) ∷ b) (batches-append ms ns)
batches-append (events [] ∷ ms) ns = batches-append ms ns
batches-append (ping ∷ ms) ns = batches-append ms ns
batches-append (pong ∷ ms) ns = batches-append ms ns
batches-append (handshake h ∷ ms) ns = batches-append ms ns
batches-append (handshake_ack st host text ∷ ms) ns = batches-append ms ns

module _ (wire : Wire) (json : Codec TrustData String) (debug : Message → String)
    (world : ℕ → Moment × (Message → Result (Unit {0}))) where
  -- One round of the handler that reads a frame.
  serve_round :
      (fuel i : ℕ) (stream rest : List ℕ) (msg : Message) (key : String) (c : Iroh)
      → c.phase ≡ streaming key
      → read_frame wire stream ≡ ok (msg, rest)
      → serve wire json debug world (suc fuel) i stream c
        ≡ serve wire json debug world fuel
            (suc i)
            rest
            (step json debug (world i).0 (record { read = ok msg; write = (world i).1 }) c)
  unfolding serve is_open
  serve_round fuel i stream rest msg key c p e =
      let live : is_open c.phase ≡ true = ap is_open p in rw (live, e, serve) refl

  serve_at :
      (f f' n n' : ℕ) (stream : List ℕ) (c : Iroh)
      → f ≡ f'
      → n ≡ n'
      → serve wire json debug world f n stream c ≡ serve wire json debug world f' n' stream c
  serve_at f f' n n' stream c e d =
      ap (λ (x : ℕ). serve wire json debug world x n stream c) e
      ∙ ap (λ (x : ℕ). serve wire json debug world f' x stream c) d

  -- A handler in its main loop that reads the frames of these messages, in rounds of its own: it is in
  -- its main loop after them, and its virtual device has emitted their batches, in order.
  pub serve-write_frames :
      (ms : List Message) (fuel i : ℕ) (rest : List ℕ) (key : String) (s : SessionEntry) (c : Iroh)
      → AllFit wire ms
      → ((n : ℕ) → Takes (world n).0.uinput)
      → ((n : ℕ) (answer : Message) → (world n).1 answer ≡ ok tt)
      → Serves key s c
      → (stream : List ℕ) × (write_frames wire ms ≡ ok stream)
        × (after : Iroh) × (s' : SessionEntry) × (serve wire json debug world
              (length ms + fuel)
              i
              (stream ++ rest)
              c
            ≡ serve wire json debug world fuel (i + length ms) rest after)
        × Serves key s' after
        × (emitted s' ≡ emitted s ++ batches ms)
  unfolding write_frames
  serve-write_frames [] fuel i rest key s c fits takes answers v = (
    [],
    refl,
    c,
    s,
    serve_at (0 + fuel) fuel i (i + 0) rest c (omega arith) (omega arith),
    v,
    sym (append-nil (emitted s)),
  )
  serve-write_frames (m ∷ ms) fuel i rest key s c fits takes answers v =
      let now = step json debug (world i).0 (record { read = ok m; write = (world i).1 }) c in
      let (s1, v1, e1) =
        step-Serves json debug (world i).0 (record { read = ok m; write = (world i).1 }) key m s c
          refl (takes i) (answers i) v in
      let (stream, w, after, s2, run, v2, e2) =
        serve-write_frames ms fuel (suc i) rest key s1 now fits.1 takes answers v1 in
      let (frame, f, back) = read_frame-write_frame wire m (stream ++ rest) fits.0 in
      (
        frame ++ stream,
        rw f (rw w refl),
        after,
        s2,
        ap (λ (x : List ℕ). serve wire json debug world (length (m ∷ ms) + fuel) i x c)
              (append_assoc frame stream rest)
            ∙ (serve_at (length (m ∷ ms) + fuel) (suc (length ms + fuel)) i i
                  (frame ++ (stream ++ rest)) c (omega arith) refl
                ∙ (serve_round (length ms + fuel) i _ (stream ++ rest) m key c v.0 back
                    ∙ (run
                        ∙ serve_at fuel fuel (suc i + length ms) (i + length (m ∷ ms)) rest after
                            refl (omega arith)))),
        v2,
        e2
            ∙ (ap (λ (b : List (List InputEvent)). b ++ batches ms) e1
                ∙ (append_assoc (emitted s) (batches (m ∷ [])) (batches ms)
                    ∙ ap (λ (b : List (List InputEvent)). emitted s ++ b)
                        (sym (batches-append (m ∷ []) ms)))),
      )
