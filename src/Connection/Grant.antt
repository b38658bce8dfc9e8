-- ===== src/Connection/Grant.antt =====
-- Who may forward over an Iroh connection: from the trust store that `handle_iroh_client` of
-- src/server.rs consults to the main loop of `run_iroh_client` of src/client.rs.
use Prim.Native.Char.{Char}
use joycast.Prelude.{String, ◌≡◌, refl, sym, subst, true, List, [], ◌∷◌, arith, ◌⊎◌, inl, inr}
use joycast.Prelude.Outcome.{Result, ok, err, Codec}
use joycast.Prelude.Map.{string_eq, contains_key}
use joycast.Prelude.Files.{FileSystem}
use joycast.Trust.{TrustData}
use joycast.Protocol.{Message, handshake, HandshakePayload}
use joycast.History.{KnownServerInfo}
use joycast.Device.{KeyCodes}
use joycast.Server.{Server, Moment}
use joycast.Server.Reaction.{Point, deciding}
use joycast.Server.Iroh.{greeting, Input}
use joycast.Server.Iroh as Handler
use joycast.Server.Iroh.Turns as Turns
use joycast.Server.Iroh.Turns.{Task, waiting, reacting}
use joycast.Client.{DeviceSelection}
use joycast.Client.Udp.{Config}
use joycast.Client.Iroh.{
  World, Arm, reconnect_tick, keepalive_tick, event, disconnected, received, timed_out, forwarding,
}
use joycast.Client.Iroh as Client
use joycast.Client.Iroh.Admission.{IsForwarding}
use joycast.Connection.{
  BothEnds, opened, Turn, acts, hears, loses, handler_turns, handler_loses, others, client_reads,
  handler_reads, handler_fails, turn, run,
}
use joycast.Connection.Agreement.{Agrees-Leaves, Stands}
use joycast.Connection.Answering.{Leaves-IsTaken}
use joycast.Connection.Run.{IsAgreed, turn-IsAgreed}
use joycast.Connection.Licensed.{
  AllLicensed, Forwards, step-Forwards, TaskLicensed, receive-AllLicensed, turn-AllLicensed,
}

module _ (trust : Codec TrustData String) (history : Codec (List KnownServerInfo) String)
    (debug : Message → String) (codes : KeyCodes) (unicode : Char → String) (config : Config) where
  -- The handler, in its reaction to a handshake with the client's id, finds this id among the approved
  -- clients of the trust store.
  abbrev pub IsGranting : Turn → BothEnds → Type 0
  IsGranting (handler_turns m write) k =
      (p : HandshakePayload) × (k.task ≡ reacting p deciding)
      × (p.client_id ≡ config.client_id)
      × (contains_key k.handler.server.trust.memory.approved config.client_id ≡ true)
  IsGranting _ k = ⊥

  -- one of the turns does so
  abbrev pub WasGranted : List Turn → BothEnds → Type 0
  WasGranted [] k = ⊥
  WasGranted (t ∷ turns) k =
      IsGranting t k ⊎ WasGranted turns (turn trust history debug codes unicode config t k)

  reacting_own :
      (c : Client.Phase) (p : HandshakePayload) (point : Point) (h : Handler.Iroh)
      (asked : List Message)
      → Stands config.client_id c (reacting p point) h asked
      → p.client_id ≡ config.client_id
  reacting_own c p point h asked (o, g, a) =
      elim (Leaves-IsTaken config.client_id greeting (handshake p) asked
        (Agrees-Leaves config.client_id c greeting (handshake p ∷ asked) h.sent a)) [
          | inl n ↦ absurd (ground arith)
          | inr (q, e, n) ↦ let same : p ≡ q = ground arith in rw same e
        ]

  module _ (P : Type 0) where
    abbrev IsLicensed : BothEnds → Type 0
    IsLicensed k = Forwards P k.client.phase × TaskLicensed P k.task × AllLicensed P k.handler.sent

    client_reads-IsLicensed :
        (w : World) (l : List Message) (k : BothEnds)
        → k.handler.sent ≡ l
        → IsLicensed k
        → IsLicensed (client_reads trust history debug codes unicode config w l k)
    unfolding client_reads
    client_reads-IsLicensed w [] k e a = a
    client_reads-IsLicensed w (m ∷ rest) k e (f, t, a) =
        let (b, a') : AllLicensed P (m ∷ rest) = rw e at a in
        (step-Forwards P history debug codes unicode config w (received (ok m)) k.client f b, t, a')

    -- what a turn of the handler's leaves
    abbrev Leaves : Moment → Input → Task → BothEnds → Type 0
    Leaves m input t k =
        let after = Turns.turn trust debug m input (t, k.handler) in
        TaskLicensed P after.0 × AllLicensed P after.1.sent

    waiting-Leaves :
        (m : Moment) (input : Input) (k : BothEnds)
        → k.task ≡ waiting
        → IsLicensed k
        → Leaves m input k.task k
    unfolding Turns.turn
    waiting-Leaves m input k q (f, t, l) =
        subst (λ (t : Task). Leaves m input t k) (sym q)
          (receive-AllLicensed P m input trust debug k.handler.phase input.read k.handler l)

    handler_reads-IsLicensed :
        (m : Moment) (write : Message → Result (Unit {0})) (t : Task) (l : List Message)
        (k : BothEnds)
        → k.task ≡ t
        → IsAgreed config.client_id k
        → (IsGranting (handler_turns m write) k → P)
        → IsLicensed k
        → IsLicensed (handler_reads trust history debug codes unicode config m write t l k)
    unfolding handler_reads
    handler_reads-IsLicensed m write (reacting p point) l k q a g (f, t, s) =
        let own = reacting_own k.client.phase p point k.handler k.client.sent (rw q at a) in
        let (t', s') : Leaves m (record { read = err ""; write = write }) k.task k =
          subst (λ (t : Task). Leaves m (record { read = err ""; write = write }) t k) (sym q)
            (turn-AllLicensed P m (record { read = err ""; write = write }) trust debug p point
              k.handler (λ e known. g (p, rw e at q, own, rw own at known)) (rw q at t) s) in
        (f, t', s')
    handler_reads-IsLicensed m write waiting [] k q a g l = l
    handler_reads-IsLicensed m write waiting (message ∷ rest) k q a g (f, t, s) =
        let (t', s') =
          waiting-Leaves m (record { read = ok message; write = write }) k q (f, t, s) in
        (f, t', s')

    handler_fails-IsLicensed :
        (m : Moment) (write : Message → Result (Unit {0})) (e : String) (t : Task) (k : BothEnds)
        → k.task ≡ t
        → IsLicensed k
        → IsLicensed (handler_fails trust history debug codes unicode config m write e t k)
    unfolding handler_fails
    handler_fails-IsLicensed m write e (reacting p point) k q l = l
    handler_fails-IsLicensed m write e waiting k q (f, t, s) =
        let (t', s') = waiting-Leaves m (record { read = err e; write = write }) k q (f, t, s) in
        (f, t', s')

    turn-IsLicensed :
        (t : Turn) (k : BothEnds)
        → IsAgreed config.client_id k
        → (IsGranting t k → P)
        → IsLicensed k
        → IsLicensed (turn trust history debug codes unicode config t k)
    unfolding turn
    turn-IsLicensed (acts w (received r)) k a g l = l
    turn-IsLicensed (acts w arm) k a g (f, t, l) =
        (step-Forwards P history debug codes unicode config w arm k.client f tt, t, l)
    turn-IsLicensed (hears w) k a g l = client_reads-IsLicensed w k.handler.sent k refl l
    turn-IsLicensed (loses w e) k a g (f, t, l) = (
      step-Forwards P history debug codes unicode config w (received (err e)) k.client f tt,
      t,
      l,
    )
    turn-IsLicensed (handler_turns m write) k a g l =
        handler_reads-IsLicensed m write k.task k.client.sent k refl a g l
    turn-IsLicensed (handler_loses m write e) k a g l =
        handler_fails-IsLicensed m write e k.task k refl l
    turn-IsLicensed (others server) k a g l = l

    run-IsLicensed :
        (turns : List Turn) (k : BothEnds)
        → IsAgreed config.client_id k
        → (WasGranted turns k → P)
        → IsLicensed k
        → Forwards P (run trust history debug codes unicode config turns k).client.phase
    unfolding run
    run-IsLicensed [] k a g (f, t, l) = f
    run-IsLicensed (t ∷ turns) k a g l =
        run-IsLicensed turns _ (turn-IsAgreed trust history debug codes unicode config t k a)
          (λ later. g (inr later)) (turn-IsLicensed t k a (λ now. g (inl now)) l)

  -- A client forwards input over an Iroh connection only if the server's trust store approves it.
  -- In a run of the connection the turns of its two ends come in any order, the reaction to a
  -- handshake in its pieces, and other tasks may leave the server in any state between any two of
  -- them. The client is in its main loop after the run only if in one of its turns the handler, in
  -- its reaction to a handshake of this client's id, looked this id up among the approved clients
  -- of the trust store, as it then stood, and found it.
  pub run-WasGranted :
      (selection : DeviceSelection) (files : FileSystem) (server : Server) (turns : List Turn)
      → IsForwarding
          (run trust history debug codes unicode config turns
            (opened selection files server)).client.phase
      → WasGranted turns (opened selection files server)
  run-WasGranted selection files server turns (r, s, e) =
      let start = opened selection files server in
      let f =
        run-IsLicensed (WasGranted turns start) turns start (refl, refl) (λ g. g) (tt, tt, tt) in
      rw e at f
