-- ===== src/Connection/Licensed.antt =====
-- Which steps admit a client: of `handle_iroh_client` of src/server.rs, and of `run_iroh_client` of
-- src/client.rs.
use Prim.Native.Char.{Char}
use mathlib.Core.List.{◌++◌ as append}
use joycast.Prelude.{String, ◌≡◌, refl, true, List, [], ◌∷◌, inl, inr, Bool-cases}
use joycast.Prelude.Outcome.{Result, ok, err, Codec, Result-cases}
use joycast.Prelude.Map.{string_eq, contains_key}
use joycast.Trust.{TrustData}
use joycast.Protocol.{
  Message, handshake, handshake_ack, events, ping, pong, approved, HandshakePayload,
}
use joycast.History.{KnownServerInfo}
use joycast.Device.{KeyCodes}
use joycast.Server.{Moment, session_key, create_session}
use joycast.Server.Iroh.{
  Iroh, Input, greeting, streaming, closed, write, write_anyway, enter, turn_away, checked,
  on_handshake, on_greeting, on_stream, on_read,
}
use joycast.Server.Iroh as Handler
use joycast.Client.Udp.{Config}
use joycast.Client.Iroh.{World, Arm, received, acking, forwarding}
use joycast.Server.Reaction.{
  Point, checking, loading, deciding, admitting, reviewing, reloading, registering, answering, done,
  consult,
}
use joycast.Server.Iroh.Turns.{Task, reacting, advance, at, receive, turn}
use joycast.Client.Iroh as Client
use joycast.Client.Iroh.Forwarding.{IsAdmitted, step-IsAdmitted}
use joycast.Client.Iroh.Admission.{IsForwarding}

module _ (P : Type 0) where
  -- a message that admits a client is written only if `P`
  abbrev pub IsLicensed : Message → Type 0
  IsLicensed (handshake_ack approved host text) = P
  IsLicensed _ = Unit

  abbrev pub AllLicensed : List Message → Type 0
  AllLicensed [] = Unit
  AllLicensed (m ∷ l) = IsLicensed m × AllLicensed l

  -- a handshake that has been approved
  abbrev pub TaskLicensed : Task → Type 0
  TaskLicensed (reacting p admitting) = P
  TaskLicensed _ = Unit

  -- so does a client forward
  abbrev pub Forwards : Client.Phase → Type 0
  Forwards (forwarding r s) = P
  Forwards _ = Unit

  AllLicensed-snoc :
      (l : List Message) (m : Message)
      → AllLicensed l
      → IsLicensed m
      → AllLicensed (append l (m ∷ []))
  AllLicensed-snoc [] m a p = (p, tt)
  AllLicensed-snoc (n ∷ l) m (q, a) p = (q, AllLicensed-snoc l m a p)

  IsForwarding-Forwards : (ph : Client.Phase) → (IsForwarding ph → P) → Forwards ph
  IsForwarding-Forwards (forwarding r s) f = f (r, s, refl)
  IsForwarding-Forwards _ f = tt

  -- what an arm of the client's brings
  abbrev pub Brings : Arm → Type 0
  Brings (received (ok m)) = IsLicensed m
  Brings _ = Unit

  module _ (history : Codec (List KnownServerInfo) String) (debug : Message → String)
      (codes : KeyCodes) (unicode : Char → String) (config : Config) where
    admits :
        (ph : Client.Phase) (arm : Arm)
        → Forwards ph
        → Brings arm
        → IsAdmitted debug history codes unicode ph arm
        → P
    admits (forwarding r s) arm f b a = f
    admits (acking metadata path) (received (ok m)) f b (host, text, e) = rw e at b
    admits ph arm f b a = absurd a

    pub step-Forwards :
        (w : World) (arm : Arm) (c : Client.IrohClient)
        → Forwards c.phase
        → Brings arm
        → Forwards (Client.step debug history codes unicode config w arm c).phase
    step-Forwards w arm c f b = IsForwarding-Forwards _ (λ (r, s, e).
        admits c.phase arm f b (step-IsAdmitted debug history codes unicode config w arm c r s e))

  module _ (m : Moment) (input : Input) where
    write-AllLicensed :
        (answer : Message) (next : Handler.Phase) (h : Iroh)
        → AllLicensed h.sent
        → IsLicensed answer
        → AllLicensed (write input answer next h).sent
    unfolding write
    write-AllLicensed answer next h a p = elim (Result-cases (input.write answer)) [
      | inl (u, k) ↦ rw (k, write) (AllLicensed-snoc h.sent answer a p)
      | inr (x, k) ↦ rw (k, write) a
    ]

    write_anyway-AllLicensed :
        (answer : Message) (next : Handler.Phase) (h : Iroh)
        → AllLicensed h.sent
        → IsLicensed answer
        → AllLicensed (write_anyway input answer next h).sent
    unfolding write_anyway
    write_anyway-AllLicensed answer next h a p = elim (Result-cases (input.write answer)) [
      | inl (u, k) ↦ rw (k, write_anyway) (AllLicensed-snoc h.sent answer a p)
      | inr (x, k) ↦ rw (k, write_anyway) a
    ]

    enter-AllLicensed :
        (p : HandshakePayload) (h : Iroh)
        → AllLicensed h.sent
        → P
        → AllLicensed (enter m input p h).sent
    unfolding enter
    enter-AllLicensed p h a l = elim (Bool-cases (contains_key h.server.sessions (session_key p))) [
      | inl there ↦ rw (there, enter) (write-AllLicensed _ _ _ a l)
      | inr absent ↦ elim (Result-cases (create_session m p h.server.sessions)) [
        | inl (made, k) ↦ rw (absent, k, enter) (write-AllLicensed _ _ _ a l)
        | inr (x, k) ↦ rw (absent, k, enter) (write_anyway-AllLicensed _ (closed (err x)) h a tt)
      ]
    ]

    on_stream-AllLicensed :
        (trust : Codec TrustData String) (key : String) (message : Message) (h : Iroh)
        → AllLicensed h.sent
        → AllLicensed (on_stream trust m input key message h).sent
    unfolding on_stream
    on_stream-AllLicensed trust key (events batch) h a =
        elim (Bool-cases (contains_key h.server.sessions key)) [
          | inl there ↦ rw (there, on_stream) a
          | inr gone ↦ rw (gone, on_stream) a
        ]
    on_stream-AllLicensed trust key ping h a =
        elim (Bool-cases (contains_key h.server.sessions key)) [
          | inl there ↦ rw (there, on_stream) (write-AllLicensed pong (streaming key) _ a tt)
          | inr gone ↦ rw (gone, on_stream) a
        ]
    on_stream-AllLicensed trust key message h a = a

    pub receive-AllLicensed :
        (trust : Codec TrustData String) (debug : Message → String) (ph : Handler.Phase)
        (read : Result Message) (h : Iroh)
        → AllLicensed h.sent
        → let after = receive trust debug m input ph read h in
          TaskLicensed after.0 × AllLicensed after.1.sent
    unfolding receive on_read on_greeting
    receive-AllLicensed trust debug greeting (ok (handshake p)) h a = (tt, a)
    receive-AllLicensed trust debug greeting (ok ping) h a =
        (tt, write-AllLicensed pong greeting h a tt)
    receive-AllLicensed trust debug greeting (ok (events batch)) h a = (tt, a)
    receive-AllLicensed trust debug greeting (ok pong) h a = (tt, a)
    receive-AllLicensed trust debug greeting (ok (handshake_ack s host text)) h a = (tt, a)
    receive-AllLicensed trust debug greeting (err e) h a = (tt, a)
    receive-AllLicensed trust debug (streaming key) (ok message) h a =
        (tt, on_stream-AllLicensed trust key message h a)
    receive-AllLicensed trust debug (streaming key) (err e) h a = (tt, a)
    receive-AllLicensed trust debug (closed r) read h a = (tt, a)

    pub turn-AllLicensed :
        (trust : Codec TrustData String) (debug : Message → String) (p : HandshakePayload)
        (point : Point) (h : Iroh)
        → (point ≡ deciding → contains_key h.server.trust.memory.approved p.client_id ≡ true → P)
        → TaskLicensed (reacting p point)
        → AllLicensed h.sent
        → let after = turn trust debug m input (reacting p point, h) in
          TaskLicensed after.0 × AllLicensed after.1.sent
    unfolding turn advance at consult
    turn-AllLicensed trust debug p admitting h g t a = (tt, enter-AllLicensed p h a t)
    turn-AllLicensed trust debug p answering h g t a = (tt, write-AllLicensed _ _ h a tt)
    turn-AllLicensed trust debug p checking h g t a = (tt, a)
    turn-AllLicensed trust debug p (loading d) h g t a = (tt, a)
    turn-AllLicensed trust debug p deciding h g t a =
        elim (Bool-cases (contains_key h.server.trust.memory.approved p.client_id)) [
          | inl known ↦ rw (known, turn) (g refl known, a)
          | inr unknown ↦ rw (unknown, turn) (tt, a)
        ]
    turn-AllLicensed trust debug p reviewing h g t a = (tt, a)
    turn-AllLicensed trust debug p (reloading d) h g t a = (tt, a)
    turn-AllLicensed trust debug p registering h g t a = (tt, a)
    turn-AllLicensed trust debug p done h g t a = (tt, a)
