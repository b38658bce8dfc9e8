-- ===== src/Connection/Run.antt =====
-- A run of an Iroh connection, with `run_iroh_client` of src/client.rs at one end of the stream and
-- `handle_iroh_client` of src/server.rs at the other: what the ends find there, and do with it.
use Prim.Native.Char.{Char}
use joycast.Prelude.{String, ◌≡◌, refl, sym, subst, List, [], ◌∷◌, ◌⊎◌, inl, inr}
use joycast.Prelude.Outcome.{Result, ok, err, Codec}
use joycast.Prelude.Files.{FileSystem}
use joycast.Trust.{TrustData}
use joycast.Protocol.{Message}
use joycast.History.{KnownServerInfo}
use joycast.Device.{KeyCodes}
use joycast.Server.{Server, Moment}
use joycast.Server.Iroh.{greeting, streaming, closed}
use joycast.Server.Iroh as Handler
use joycast.Server.Iroh.Turns as Turns
use joycast.Server.Iroh.Turns.{Task, waiting, reacting}
use joycast.Client.{DeviceSelection}
use joycast.Client.Udp.{Config}
use joycast.Client.Iroh.{
  World, Arm, reconnect_tick, keepalive_tick, event, disconnected, received, timed_out, ponging,
  acking, forwarding,
}
use joycast.Client.Iroh as Client
use joycast.Connection.{
  BothEnds, opened, Turn, acts, hears, loses, handler_turns, handler_loses, others, client_reads,
  handler_reads, handler_fails, turn, run,
}
use joycast.Connection.Agreement.{IsOwnKey, Agrees, Agrees-Leaves, Stands, Stands-Agrees, ahead}
use joycast.Connection.Asking.{IsAct, on_phase-Agrees}
use joycast.Connection.Hearing.{Agrees-IsExpected, on_phase-hears}
use joycast.Connection.Reacting.{on_phase-ahead, on_phase-hears_ahead}
use joycast.Connection.Answering.{Leaves-IsTaken}
use joycast.Connection.Serving.{loses-Stands, turn-Stands, waiting-Stands}
use joycast.Connection.Reading.{Reads, Answers, able, on_phase-Reads, receive-Answers}

abbrev pub IsFull : List Message → Type 0
IsFull [] = ⊥
IsFull (m ∷ rest) = Unit

-- A client that waits for an answer has one to read, or the handler has something to read or to react
-- to, or has ended.
abbrev pub IsLive : Client.Phase → Handler.Phase → List Message → List Message → Type 0
IsLive ponging (closed r) asked told = Unit
IsLive ponging ph asked told = IsFull asked ⊎ IsFull told
IsLive (acking metadata path) (closed r) asked told = Unit
IsLive (acking metadata path) ph asked told = IsFull asked ⊎ IsFull told
IsLive _ ph asked told = Unit

-- A client that forwards is forwarded, on a session of its own, until the handler ends.
abbrev pub IsMet : String → Client.Phase → Handler.Phase → Type 0
IsMet id (forwarding r s) greeting = ⊥
IsMet id (forwarding r s) (streaming key) = IsOwnKey id key
IsMet id _ _ = Unit

abbrev pub IsAgreed : String → BothEnds → Type 0
IsAgreed id k = Stands id k.client.phase k.task k.handler k.client.sent

Agrees-IsLive :
    (id : String) (c : Client.Phase) (h : Handler.Phase) (asked told : List Message)
    → Agrees id c h asked told
    → IsLive c h asked told
Agrees-IsLive id ponging greeting asked told (inl (a, b)) = inl (subst IsFull (sym a) tt)
Agrees-IsLive id ponging greeting asked told (inr (a, b)) = inr (subst IsFull (sym b) tt)
Agrees-IsLive id ponging (streaming key) asked told a = absurd a
Agrees-IsLive id (acking _ _) greeting asked told ((p, o, e), b) = inl (subst IsFull (sym e) tt)
Agrees-IsLive id (acking _ _) (streaming key) asked told (a, (status, host, text, e), k) =
    inr (subst IsFull (sym e) tt)
Agrees-IsLive id ponging (closed r) asked told a = tt
Agrees-IsLive id (acking _ _) (closed r) asked told a = tt
Agrees-IsLive id _ h asked told a = tt

Agrees-IsMet :
    (id : String) (c : Client.Phase) (h : Handler.Phase) (asked told : List Message)
    → Agrees id c h asked told
    → IsMet id c h
Agrees-IsMet id (forwarding r s) greeting asked told a = a
Agrees-IsMet id (forwarding r s) (streaming key) asked told (a, b, k) = k
Agrees-IsMet id (forwarding r s) (closed e) asked told a = tt
Agrees-IsMet id _ h asked told a = tt

module _ (trust : Codec TrustData String) (history : Codec (List KnownServerInfo) String)
    (debug : Message → String) (codes : KeyCodes) (unicode : Char → String) (config : Config) where
  acts-Stands :
      (w : World) (arm : Arm) (c : Client.IrohClient) (t : Task) (h : Handler.Iroh)
      → IsAct arm
      → Stands config.client_id c.phase t h c.sent
      → let after = Client.step debug history codes unicode config w arm c in
        Stands config.client_id after.phase t h after.sent
  unfolding Client.step
  acts-Stands w arm c waiting h i a =
      on_phase-Agrees config h.phase h.sent debug history codes unicode w arm c.phase c i refl a
  acts-Stands w arm c (reacting p point) h i (o, g, a) =
      (o, g, on_phase-ahead p debug history codes unicode config w arm c.phase c h.sent i refl a)

  hears-Stands :
      (w : World) (m : Message) (rest : List Message) (c : Client.IrohClient) (t : Task)
      (h : Handler.Iroh)
      → h.sent ≡ m ∷ rest
      → Stands config.client_id c.phase t h c.sent
      → let after = Client.step debug history codes unicode config w (received (ok m)) c in
        Stands config.client_id after.phase t (record h { sent = rest }) after.sent
  unfolding Client.step
  hears-Stands w m rest c waiting h e a =
      on_phase-hears config h.phase debug history rest codes unicode w m c.phase c refl (rw e at a)
  hears-Stands w m rest c (reacting p point) h e (o, g, a) = (
    o,
    g,
    on_phase-hears_ahead p debug history codes unicode config w m c.phase c rest refl (rw e at a),
  )

  client_reads-IsAgreed :
      (w : World) (l : List Message) (k : BothEnds)
      → k.handler.sent ≡ l
      → IsAgreed config.client_id k
      → IsAgreed config.client_id (client_reads trust history debug codes unicode config w l k)
  unfolding client_reads
  client_reads-IsAgreed w [] k e a = a
  client_reads-IsAgreed w (m ∷ rest) k e a = hears-Stands w m rest k.client k.task k.handler e a

  -- the task and the handler after a turn of the handler's
  abbrev After :
      Moment
      → (Message → Result (Unit {0}))
      → Result Message
      → List Message
      → BothEnds
      → Task
      → Type 0
  After m write read asked k t =
      let after = Turns.turn trust debug m (record { read = read; write = write }) (t, k.handler) in
      Stands config.client_id k.client.phase after.0 after.1 asked

  handler_reads-IsAgreed :
      (m : Moment) (write : Message → Result (Unit {0})) (t : Task) (l : List Message)
      (k : BothEnds)
      → k.task ≡ t
      → k.client.sent ≡ l
      → IsAgreed config.client_id k
      → IsAgreed config.client_id
          (handler_reads trust history debug codes unicode config m write t l k)
  unfolding handler_reads
  handler_reads-IsAgreed m write (reacting p point) l k q e a =
      subst (After m write (err "") k.client.sent k) (sym q) (
        turn-Stands config.client_id k.client.phase k.client.sent
          (record { read = err ""; write = write }) trust debug m p point k.handler (rw q at a))
  handler_reads-IsAgreed m write waiting [] k q e a = a
  handler_reads-IsAgreed m write waiting (message ∷ rest) k q e a =
      subst (After m write (ok message) rest k) (sym q) (
        waiting-Stands config.client_id k.client.phase rest
          (record { read = ok message; write = write }) trust debug m message k.handler
          (rw (q, e) at a) refl)

  handler_fails-IsAgreed :
      (m : Moment) (write : Message → Result (Unit {0})) (e : String) (t : Task) (k : BothEnds)
      → k.task ≡ t
      → IsAgreed config.client_id k
      → IsAgreed config.client_id
          (handler_fails trust history debug codes unicode config m write e t k)
  unfolding handler_fails
  handler_fails-IsAgreed m write e (reacting p point) k q a = a
  handler_fails-IsAgreed m write e waiting k q a =
      subst (After m write (err e) k.client.sent k) (sym q) (
        loses-Stands config.client_id k.client.phase k.client.sent
          (record { read = err e; write = write }) trust debug m e k.handler (rw q at a) refl)

  others-Stands :
      (c : Client.Phase) (t : Task) (h : Handler.Iroh) (server : Server) (asked : List Message)
      → Stands config.client_id c t h asked
      → Stands config.client_id c t (record h { server = server }) asked
  others-Stands c waiting h server asked a = a
  others-Stands c (reacting p point) h server asked a = a

  pub turn-IsAgreed :
      (t : Turn) (k : BothEnds)
      → IsAgreed config.client_id k
      → IsAgreed config.client_id (turn trust history debug codes unicode config t k)
  unfolding turn
  turn-IsAgreed (acts w (received r)) k a = a
  turn-IsAgreed (acts w arm) k a = acts-Stands w arm k.client k.task k.handler tt a
  turn-IsAgreed (hears w) k a = client_reads-IsAgreed w k.handler.sent k refl a
  turn-IsAgreed (loses w e) k a = acts-Stands w (received (err e)) k.client k.task k.handler tt a
  turn-IsAgreed (handler_turns m write) k a =
      handler_reads-IsAgreed m write k.task k.client.sent k refl refl a
  turn-IsAgreed (handler_loses m write e) k a = handler_fails-IsAgreed m write e k.task k refl a
  turn-IsAgreed (others server) k a =
      others-Stands k.client.phase k.task k.handler server k.client.sent a

  run-IsAgreed :
      (turns : List Turn) (k : BothEnds)
      → IsAgreed config.client_id k
      → IsAgreed config.client_id (run trust history debug codes unicode config turns k)
  unfolding run
  run-IsAgreed [] k a = a
  run-IsAgreed (t ∷ turns) k a = run-IsAgreed turns _ (turn-IsAgreed t k a)

  module _ (w : World) (m : Moment) where
    -- what the client does with the message that comes next, if one is there
    abbrev pub ClientGoesOn : List Message → Client.IrohClient → Type 0
    ClientGoesOn [] c = Unit
    ClientGoesOn (message ∷ rest) c =
        Reads c.phase
          (Client.step debug history codes unicode config w (received (ok message)) c).phase

    -- what the handler does with it, if it waits for a frame and can write
    abbrev pub HandlerGoesOn : Task → List Message → Handler.Iroh → Type 0
    HandlerGoesOn waiting (message ∷ rest) h =
        Answers config.client_id h.phase message h
          (Turns.turn trust debug m (able trust debug m (ok message)) (waiting, h))
    HandlerGoesOn _ _ h = Unit

    pub record Understands (k : BothEnds) : Type 0 where
      pub reads : ClientGoesOn k.handler.sent k.client
      pub answers : HandlerGoesOn k.task k.client.sent k.handler
      pub live :
          IsLive k.client.phase k.handler.phase
            (ahead config.client_id k.task k.client.sent)
            k.handler.sent
      pub met : IsMet config.client_id k.client.phase k.handler.phase

    Agrees-reads :
        (c : Client.IrohClient) (h : Handler.Phase) (asked told : List Message)
        → Agrees config.client_id c.phase h asked told
        → ClientGoesOn told c
    unfolding Client.step
    Agrees-reads c h asked [] a = tt
    Agrees-reads c h asked (message ∷ rest) a =
        on_phase-Reads debug history codes unicode config w c.phase message c refl
          (Agrees-IsExpected config.client_id c.phase h asked rest message a)

    Stands-answers :
        (c : Client.Phase) (t : Task) (h : Handler.Iroh) (asked : List Message)
        → Stands config.client_id c t h asked
        → HandlerGoesOn t asked h
    unfolding Turns.turn
    Stands-answers c waiting h (message ∷ rest) a =
        receive-Answers trust debug m (ok message) config.client_id h.phase message h refl (
          Leaves-IsTaken config.client_id h.phase message rest
            (Agrees-Leaves config.client_id c h.phase (message ∷ rest) h.sent a))
    Stands-answers c waiting h [] a = tt
    Stands-answers c (reacting p point) h asked a = tt

    -- The two ends of an Iroh connection speak the same protocol. From the opening of the stream
    -- on, the client and the handler take their turns in any order, the reaction to a handshake in
    -- its pieces; each may fail to read or to write, and other tasks may leave the server in any
    -- state. At any moment, the message that comes next for the client, if one is there, is one
    -- that it waits for, and takes it on: from the wait for a pong to the wait for a device; from
    -- the wait for the acknowledgment to its main loop, or to its end with the error of a client
    -- that is pending, is rejected, or cannot open the event stream of its device; in its main
    -- loop, it stays there. The message that comes next for a handler that waits for a frame and
    -- can write is answered: before the handshake, a ping by a pong, and a handshake, which has the
    -- client's id, by the reaction to it; in its main loop, a ping by a pong, and any other message
    -- by nothing, and it stays there, or its session is gone and it ends without an error. A client
    -- that awaits an answer has a message to read, or the handler has one to read or to react to,
    -- or has ended. And while a client forwards, the handler is in its main loop, with the session
    -- key of a handshake of the client's id, or has ended.
    pub run-Understands :
        (selection : DeviceSelection) (files : FileSystem) (server : Server) (turns : List Turn)
        → Understands
            (run trust history debug codes unicode config turns (opened selection files server))
    run-Understands selection files server turns =
        let start = opened selection files server in
        let k = run trust history debug codes unicode config turns start in
        let s : IsAgreed config.client_id k = run-IsAgreed turns start (refl, refl) in
        let asked = ahead config.client_id k.task k.client.sent in
        let a = Stands-Agrees config.client_id k.client.phase k.task k.handler k.client.sent s in
        record {
          reads = Agrees-reads k.client k.handler.phase asked k.handler.sent a;
          answers = Stands-answers k.client.phase k.task k.handler k.client.sent s;
          live =
              Agrees-IsLive config.client_id k.client.phase k.handler.phase asked k.handler.sent a;
          met = Agrees-IsMet config.client_id k.client.phase k.handler.phase asked k.handler.sent a;
        }
