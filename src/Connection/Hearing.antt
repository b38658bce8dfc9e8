-- ===== src/Connection/Hearing.antt =====
-- What `run_iroh_client` of src/client.rs reads at its end of an Iroh connection.
use Prim.Native.Char.{Char}
use joycast.Prelude.{String, ◌≡◌, sym, subst, Bool, true, false, List, [], ◌∷◌, arith, inl, inr}
use joycast.Prelude.Outcome.{ok, Codec}
use joycast.Protocol.{
  DeviceMetadata, Message, handshake_ack, pong, approved, pending_approval, rejected,
}
use joycast.History.{KnownServerInfo}
use joycast.Device.{KeyCodes}
use joycast.Server.Iroh.{greeting, streaming, closed}
use joycast.Server.Iroh as Handler
use joycast.Client.{ReconnectingDevice}
use joycast.Client.Udp.{Config}
use joycast.Client.Iroh.{
  Phase, waiting, ponging, acking, forwarding, ended, IrohClient, World, received, on_waiting,
  on_ponging, on_ack, on_reply, on_acking, on_forwarding, on_phase,
}
use joycast.Connection.Agreement.{IsPong, AllPlain, AllPong, Acks, Agrees, Agrees-Leaves}
use joycast.Connection.Asking.{AgreesAt, start-Agrees}

-- the messages that the client takes
abbrev pub IsExpected : Phase → Message → Type 0
IsExpected waiting m = ⊥
IsExpected ponging m = m ≡ pong
IsExpected (acking metadata path) m = Acks (m ∷ [])
IsExpected (forwarding r s) m = IsPong m
IsExpected (ended r) m = Unit

only : (m n : Message) (rest : List Message) → m ∷ rest ≡ n ∷ [] → (m ≡ n) × (rest ≡ [])
only m n rest e = (ground arith, ground arith)

Acks-only : (m : Message) (rest : List Message) → Acks (m ∷ rest) → Acks (m ∷ []) × (rest ≡ [])
Acks-only m rest (status, host, text, e) = ((status, host, text, ground arith), ground arith)

module _ (id : String) where
  pub Agrees-IsExpected :
      (c : Phase) (h : Handler.Phase) (asked rest : List Message) (m : Message)
      → Agrees id c h asked (m ∷ rest)
      → IsExpected c m
  Agrees-IsExpected waiting greeting asked rest m (a, b) = absurd (ground arith)
  Agrees-IsExpected waiting (closed r) asked rest m a = absurd (ground arith)
  Agrees-IsExpected waiting (streaming key) asked rest m a = a
  Agrees-IsExpected ponging greeting asked rest m (inl (a, b)) = absurd (ground arith)
  Agrees-IsExpected ponging greeting asked rest m (inr (a, b)) = (only m pong rest b).0
  Agrees-IsExpected ponging (closed r) asked rest m (inl b) = absurd (ground arith)
  Agrees-IsExpected ponging (closed r) asked rest m (inr b) = (only m pong rest b).0
  Agrees-IsExpected ponging (streaming key) asked rest m a = absurd a
  Agrees-IsExpected (acking metadata path) greeting asked rest m (a, b) = absurd (ground arith)
  Agrees-IsExpected (acking metadata path) (streaming key) asked rest m (a, b, k) =
      (Acks-only m rest b).0
  Agrees-IsExpected (acking metadata path) (closed r) asked rest m (inl b) = absurd (ground arith)
  Agrees-IsExpected (acking metadata path) (closed r) asked rest m (inr b) = (Acks-only m rest b).0
  Agrees-IsExpected (forwarding r s) greeting asked rest m a = absurd a
  Agrees-IsExpected (forwarding r s) (streaming key) asked rest m (a, b, k) = b.0
  Agrees-IsExpected (forwarding r s) (closed e) asked rest m a = a.0
  Agrees-IsExpected (ended r) h asked rest m a = tt

  -- the pong that was awaited leaves nothing on the stream
  ponged :
      (h : Handler.Phase) (asked rest : List Message) (m : Message)
      → Agrees id ponging h asked (m ∷ rest)
      → Agrees id waiting h asked rest
  ponged greeting asked rest m (inl (a, b)) = absurd (ground arith)
  ponged greeting asked rest m (inr (a, b)) = (a, (only m pong rest b).1)
  ponged (closed r) asked rest m (inl b) = absurd (ground arith)
  ponged (closed r) asked rest m (inr b) = (only m pong rest b).1
  ponged (streaming key) asked rest m a = absurd a

  -- nor does the acknowledgment
  acknowledged :
      (h : Handler.Phase) (metadata : DeviceMetadata) (path : String) (asked rest : List Message)
      (m : Message) (r : ReconnectingDevice) (s : Bool)
      → Agrees id (acking metadata path) h asked (m ∷ rest)
      → Agrees id (forwarding r s) h asked rest
  acknowledged greeting metadata path asked rest m r s (a, b) = absurd (ground arith)
  acknowledged (streaming key) metadata path asked rest m r s (a, b, k) =
      (subst AllPlain (sym a) tt, subst AllPong (sym (Acks-only m rest b).1) tt, k)
  acknowledged (closed e) metadata path asked rest m r s (inl b) = absurd (ground arith)
  acknowledged (closed e) metadata path asked rest m r s (inr b) =
      subst AllPong (sym (Acks-only m rest b).1) tt

  forwarded :
      (h : Handler.Phase) (r : ReconnectingDevice) (s : Bool) (asked rest : List Message)
      (m : Message)
      → Agrees id (forwarding r s) h asked (m ∷ rest)
      → Agrees id (forwarding r s) h asked rest
  forwarded (streaming key) r s asked rest m (a, b, k) = (a, b.1, k)
  forwarded (closed e) r s asked rest m a = a.1
  forwarded greeting r s asked rest m a = absurd a

module _ (config : Config) (h : Handler.Phase) (debug : Message → String)
    (history : Codec (List KnownServerInfo) String) (rest : List Message) where
  on_ponging-Agrees :
      (m : Message) (c : IrohClient)
      → m ≡ pong
      → Agrees config.client_id ponging h c.sent (m ∷ rest)
      → AgreesAt config h (on_ponging debug (received (ok m)) c) rest
  unfolding on_ponging
  on_ponging-Agrees pong c e a = ponged config.client_id h c.sent rest pong a
  on_ponging-Agrees _ c e a = absurd (ground arith)

  on_reply-Agrees :
      (w : World) (metadata : DeviceMetadata) (path : String) (m : Message) (c : IrohClient)
      → Agrees config.client_id (acking metadata path) h c.sent (m ∷ rest)
      → AgreesAt config h (on_reply debug history config w metadata path m c) rest
  unfolding on_reply on_ack
  on_reply-Agrees w metadata path (handshake_ack approved host text) c a =
      start-Agrees config h rest w metadata path _
        (λ r s. acknowledged config.client_id h metadata path c.sent rest _ r s a)
  on_reply-Agrees w metadata path (handshake_ack pending_approval host text) c a =
      Agrees-Leaves config.client_id (acking metadata path) h c.sent _ a
  on_reply-Agrees w metadata path (handshake_ack rejected host text) c a =
      Agrees-Leaves config.client_id (acking metadata path) h c.sent _ a
  on_reply-Agrees w metadata path m c a =
      Agrees-Leaves config.client_id (acking metadata path) h c.sent _ a

  stays :
      (m : Message) (ph : Phase) (c : IrohClient)
      → c.phase ≡ ph
      → Agrees config.client_id ph h c.sent rest
      → AgreesAt config h c rest
  stays m ph c p a = subst (λ (x : Phase). Agrees config.client_id x h c.sent rest) (sym p) a

  -- The client reads the message that comes first.
  pub on_phase-hears :
      (codes : KeyCodes) (unicode : Char → String) (w : World) (m : Message) (ph : Phase)
      (c : IrohClient)
      → c.phase ≡ ph
      → Agrees config.client_id ph h c.sent (m ∷ rest)
      → AgreesAt config h
          (on_phase debug history codes unicode config w ph (received (ok m)) c)
          rest
  unfolding on_phase on_waiting on_acking on_forwarding
  on_phase-hears codes unicode w m waiting c p a =
      absurd (Agrees-IsExpected config.client_id waiting h c.sent rest m a)
  on_phase-hears codes unicode w m ponging c p a =
      on_ponging-Agrees m c (Agrees-IsExpected config.client_id ponging h c.sent rest m a) a
  on_phase-hears codes unicode w m (acking metadata path) c p a =
      on_reply-Agrees w metadata path m c a
  on_phase-hears codes unicode w m (forwarding r true) c p a =
      stays m (forwarding r true) c p (forwarded config.client_id h r true c.sent rest m a)
  on_phase-hears codes unicode w m (forwarding r false) c p a =
      stays m (forwarding r false) c p (forwarded config.client_id h r false c.sent rest m a)
  on_phase-hears codes unicode w m (ended r) c p a = stays m (ended r) c p a
