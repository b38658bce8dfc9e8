-- ===== src/Connection/Reading.antt =====
-- What either end of an Iroh connection does with the message that comes next for it:
-- `run_iroh_client` of src/client.rs, and `handle_iroh_client` of src/server.rs where it can write.
use Prim.Native.Char.{Char}
use Prim.Native.String.{◌++◌}
use mathlib.Core.List.{◌++◌ as append, append-nil}
use joycast.Prelude.{
  String, ◌≡◌, refl, sym, true, false, List, [], ◌∷◌, arith, ◌⊎◌, inl, inr, Bool-cases,
}
use joycast.Prelude.Outcome.{Result, ok, err, Codec, Result-cases}
use joycast.Prelude.Map.{string_eq, contains_key}
use joycast.Trust.{TrustData}
use joycast.Protocol.{
  DeviceMetadata, Message, handshake, handshake_ack, events, ping, pong, approved, pending_approval,
  rejected, HandshakePayload,
}
use joycast.History.{KnownServerInfo}
use joycast.Device.{KeyCodes}
use joycast.Server.{Moment}
use joycast.Server.Reaction.{checking}
use joycast.Server.Iroh.{
  Iroh, Input, greeting, streaming, closed, write, on_greeting, on_stream, on_read,
}
use joycast.Server.Iroh as Handler
use joycast.Server.Iroh.Turns.{Task, reacting, receive}
use joycast.Server.Iroh.Turns.{waiting as waits}
use joycast.Client.{reconnecting}
use joycast.Client.Udp.{Config}
use joycast.Client.Iroh.{
  Phase, waiting, ponging, acking, forwarding, ended, IrohClient, World, received, start,
  on_ponging, on_ack, on_reply, on_acking, on_forwarding, on_phase,
}
use joycast.Connection.Hearing.{IsExpected}
use joycast.Connection.Answering.{IsTaken}

-- the errors with which the server or the device turns the client away
abbrev pub IsTurnedAway : Phase → Type 0
IsTurnedAway ph =
    (ph ≡ ended (err "Connection pending server authorization."))
    ⊎ ((text : String) × (ph ≡ ended (err ("Server rejected connection: " ++ text))))
    ⊎ (ph ≡ ended (err "Failed to create async event stream for device"))

-- The phase of a client, and its phase after it has read the message that came next: there is none
-- before it asks.
abbrev pub Reads : Phase → Phase → Type 0
Reads waiting after = ⊥
Reads ponging after = after ≡ waiting
Reads (acking metadata path) after =
    (after ≡ forwarding (reconnecting path metadata) true) ⊎ IsTurnedAway after
Reads (forwarding r s) after = after ≡ forwarding r s
Reads (ended r) after = after ≡ ended r

-- what the main loop of the handler writes
abbrev pub reply : Message → List Message
reply ping = pong ∷ []
reply _ = []

-- The phase of a handler that waits, the message that comes next, and the handler before and after
-- it has read this message: a ping is answered at once, and the client's handshake considered; in the
-- main loop it goes on as long as its session is there.
abbrev pub Answers : String → Handler.Phase → Message → Iroh → Task × Iroh → Type 0
Answers id greeting m h after =
    ((m ≡ ping)
      × (after.0 ≡ waits)
      × (after.1.phase ≡ greeting)
      × (after.1.sent ≡ append h.sent (pong ∷ [])))
    ⊎ ((p : HandshakePayload) × (p.client_id ≡ id)
        × (m ≡ handshake p)
        × (after ≡ (reacting p checking, h)))
Answers id (streaming key) m h after =
    ((after.1.phase ≡ streaming key) × (after.1.sent ≡ append h.sent (reply m)))
    ⊎ ((contains_key h.server.sessions key ≡ false) × (after.1.phase ≡ closed (ok tt)))
Answers id (closed r) m h after = after.1.phase ≡ closed r

module _ (debug : Message → String) (history : Codec (List KnownServerInfo) String)
    (codes : KeyCodes) (unicode : Char → String) (config : Config) (w : World) where
  start-Reads :
      (metadata : DeviceMetadata) (path : String) (c : IrohClient)
      → Reads (acking metadata path) (start w metadata path c).phase
  unfolding start
  start-Reads metadata path c = elim (Result-cases w.stream) [
    | inl (u, k) ↦ rw (k, start) (inl refl)
    | inr (x, k) ↦ rw (k, start) (inr (inr (inr refl)))
  ]

  on_reply-Reads :
      (metadata : DeviceMetadata) (path : String) (m : Message) (c : IrohClient)
      → IsExpected (acking metadata path) m
      → Reads (acking metadata path) (on_reply debug history config w metadata path m c).phase
  unfolding on_reply on_ack
  on_reply-Reads metadata path (handshake_ack approved host text) c e = start-Reads metadata path _
  on_reply-Reads metadata path (handshake_ack pending_approval host text) c e = inr (inl refl)
  on_reply-Reads metadata path (handshake_ack rejected host text) c e = inr (inr (inl (text, refl)))
  on_reply-Reads metadata path _ c (status, host, text, e) = absurd (ground arith)

  on_ponging-Reads :
      (m : Message) (c : IrohClient)
      → m ≡ pong
      → (on_ponging debug (received (ok m)) c).phase ≡ waiting
  unfolding on_ponging
  on_ponging-Reads pong c e = refl
  on_ponging-Reads _ c e = absurd (ground arith)

  pub on_phase-Reads :
      (ph : Phase) (m : Message) (c : IrohClient)
      → c.phase ≡ ph
      → IsExpected ph m
      → Reads ph (on_phase debug history codes unicode config w ph (received (ok m)) c).phase
  unfolding on_phase on_acking on_forwarding
  on_phase-Reads waiting m c p e = e
  on_phase-Reads ponging m c p e = on_ponging-Reads m c e
  on_phase-Reads (acking metadata path) m c p e = on_reply-Reads metadata path m c e
  on_phase-Reads (forwarding r true) m c p e = p
  on_phase-Reads (forwarding r false) m c p e = p
  on_phase-Reads (ended r) m c p e = p

module _ (trust : Codec TrustData String) (debug : Message → String) (m : Moment)
    (read : Result Message) where
  -- it can write
  abbrev pub able : Input
  able = record { read = read; write = λ answer. ok tt }

  on_stream-Answers :
      (id key : String) (message : Message) (h : Iroh)
      → h.phase ≡ streaming key
      → IsTaken id (streaming key) message
      → Answers id (streaming key) message h (waits, on_stream trust m able key message h)
  unfolding on_stream write
  on_stream-Answers id key (events batch) h p t =
      elim (Bool-cases (contains_key h.server.sessions key)) [
        | inl there ↦ rw (there, on_stream) (inl (p, sym (append-nil h.sent)))
        | inr gone ↦ rw (gone, on_stream) (inr (refl, refl))
      ]
  on_stream-Answers id key ping h p t = elim (Bool-cases (contains_key h.server.sessions key)) [
    | inl there ↦ rw (there, on_stream) (inl (refl, refl))
    | inr gone ↦ rw (gone, on_stream) (inr (refl, refl))
  ]
  on_stream-Answers id key _ h p t = absurd t

  on_greeting-Answers :
      (id : String) (message : Message) (h : Iroh)
      → IsTaken id greeting message
      → Answers id greeting message h (receive trust debug m able greeting (ok message) h)
  unfolding receive on_read on_greeting write
  on_greeting-Answers id (handshake p) h (inr (q, o, e)) =
      let same : p ≡ q = ground arith in inr (p, rw same o, refl, refl)
  on_greeting-Answers id (handshake p) h (inl e) = absurd (ground arith)
  on_greeting-Answers id ping h t = inl (refl, refl, refl, refl)
  on_greeting-Answers id _ h (inl e) = absurd (ground arith)
  on_greeting-Answers id _ h (inr (q, o, e)) = absurd (ground arith)

  pub receive-Answers :
      (id : String) (ph : Handler.Phase) (message : Message) (h : Iroh)
      → h.phase ≡ ph
      → IsTaken id ph message
      → Answers id ph message h (receive trust debug m able ph (ok message) h)
  unfolding receive on_read
  receive-Answers id greeting message h p t = on_greeting-Answers id message h t
  receive-Answers id (streaming key) message h p t = on_stream-Answers id key message h p t
  receive-Answers id (closed r) message h p t = p
