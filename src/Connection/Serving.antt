-- ===== src/Connection/Serving.antt =====
-- What `handle_iroh_client` of src/server.rs reads at its end of an Iroh connection.
use mathlib.Core.List.{◌++◌ as append}
use joycast.Prelude.{String, ◌≡◌, refl, sym, subst, List, [], ◌∷◌, inl, inr, Bool-cases}
use joycast.Prelude.Outcome.{Result, ok, err, Codec, Result-cases}
use joycast.Prelude.Map.{string_eq, contains_key}
use joycast.Trust.{TrustData, is_approved}
use joycast.Protocol.{Message, handshake, handshake_ack, events, ping, pong, HandshakePayload}
use joycast.Server.{Moment, session_key, create_session}
use joycast.Server.Iroh.{
  Phase, Iroh, Input, greeting, streaming, closed, write, write_anyway, enter, turn_away, checked,
  on_handshake, on_greeting, on_stream, on_read,
}
use joycast.Server.Reaction.{
  Point, checking, loading, deciding, admitting, reviewing, reloading, registering, answering, done,
  consult,
}
use joycast.Server.Iroh.Turns.{waiting, reacting, advance, at, receive, turn}
use joycast.Client.Iroh as Client
use joycast.Connection.Agreement.{Agrees, Agrees-closed, Stands}
use joycast.Connection.Answering.{pinged, admitted, dismissed, played, ponged}

module _ (id : String) (client : Client.Phase) (rest : List Message) where
  abbrev pub AgreesWith : Iroh → Type 0
  AgreesWith h = Agrees id client h.phase rest h.sent

  keeps : (ph : Phase) (h : Iroh) → h.phase ≡ ph → Agrees id client ph rest h.sent → AgreesWith h
  keeps ph h q a = subst (λ (x : Phase). Agrees id client x rest h.sent) (sym q) a

  module _ (input : Input) where
    write-Agrees :
        (answer : Message) (next : Phase) (h : Iroh)
        → ((r : Result (Unit {0})) → Agrees id client (closed r) rest h.sent)
        → Agrees id client next rest (append h.sent (answer ∷ []))
        → AgreesWith (write input answer next h)
    unfolding write
    write-Agrees answer next h s n = elim (Result-cases (input.write answer)) [
      | inl (u, k) ↦ rw (k, write) n
      | inr (x, k) ↦ rw (k, write) (s (err x))
    ]

    write_anyway-Agrees :
        (answer : Message) (next : Phase) (h : Iroh)
        → Agrees id client next rest h.sent
        → Agrees id client next rest (append h.sent (answer ∷ []))
        → AgreesWith (write_anyway input answer next h)
    unfolding write_anyway
    write_anyway-Agrees answer next h s n = elim (Result-cases (input.write answer)) [
      | inl (u, k) ↦ rw (k, write_anyway) n
      | inr (x, k) ↦ rw (k, write_anyway) s
    ]

    enter-Agrees :
        (m : Moment) (p : HandshakePayload) (h : Iroh)
        → Agrees id client greeting (handshake p ∷ rest) h.sent
        → AgreesWith (enter m input p h)
    unfolding enter
    enter-Agrees m p h a =
        let silent : (r : Result (Unit {0})) → Agrees id client (closed r) rest h.sent =
          λ r. Agrees-closed id client greeting _ rest h.sent r a in
        elim (Bool-cases (contains_key h.server.sessions (session_key p))) [
          | inl there ↦
              rw (there, enter)
                (write-Agrees _ _ _ silent (admitted id p rest h.sent _ _ _ client a))
          | inr absent ↦ elim (Result-cases (create_session m p h.server.sessions)) [
            | inl (made, k) ↦
                rw (absent, k, enter)
                  (write-Agrees _ _ _ silent (admitted id p rest h.sent _ _ _ client a))
            | inr (x, k) ↦
                rw (absent, k, enter)
                  (write_anyway-Agrees _ (closed (err x)) h (silent (err x))
                    (dismissed id p rest h.sent _ _ _ client (err x) a))
          ]
        ]

    module _ (trust : Codec TrustData String) (debug : Message → String) (m : Moment) where
      on_handshake-Agrees :
          (p : HandshakePayload) (h : Iroh)
          → Agrees id client greeting (handshake p ∷ rest) h.sent
          → AgreesWith (on_handshake trust m input p h)
      unfolding on_handshake turn_away checked
      on_handshake-Agrees p h a =
          elim (Bool-cases (is_approved trust p.client_id h.server.files h.server.trust).0) [
            | inl known ↦ rw (known, on_handshake) (enter-Agrees m p (checked trust p h) a)
            | inr unknown ↦
                rw (unknown, on_handshake)
                  (write-Agrees _ _ _ (λ r. Agrees-closed id client greeting _ rest h.sent r a)
                    (dismissed id p rest h.sent _ _ _ client (ok tt) a))
          ]

      on_greeting-Agrees :
          (message : Message) (h : Iroh)
          → h.phase ≡ greeting
          → Agrees id client greeting (message ∷ rest) h.sent
          → AgreesWith (on_greeting trust debug m input message h)
      unfolding on_greeting
      on_greeting-Agrees (handshake p) h q a = on_handshake-Agrees p h a
      on_greeting-Agrees ping h q a =
          write-Agrees pong greeting h (λ r. Agrees-closed id client greeting _ rest h.sent r a)
            (pinged id client rest h.sent a)
      on_greeting-Agrees message h q a =
          Agrees-closed id client greeting (message ∷ rest) rest h.sent _ a

      on_stream-Agrees :
          (key : String) (message : Message) (h : Iroh)
          → h.phase ≡ streaming key
          → Agrees id client (streaming key) (message ∷ rest) h.sent
          → AgreesWith (on_stream trust m input key message h)
      unfolding on_stream
      on_stream-Agrees key (events batch) h q a =
          elim (Bool-cases (contains_key h.server.sessions key)) [
            | inl there ↦
                rw (there, on_stream)
                  (keeps (streaming key) h q (played id client key _ rest h.sent a))
            | inr gone ↦
                rw (gone, on_stream) (Agrees-closed id client (streaming key) _ rest h.sent _ a)
          ]
      on_stream-Agrees key ping h q a = elim (Bool-cases (contains_key h.server.sessions key)) [
        | inl there ↦
            rw (there, on_stream)
              (write-Agrees pong (streaming key) _
                (λ r. Agrees-closed id client (streaming key) _ rest h.sent r a)
                (ponged id client key _ rest h.sent a))
        | inr gone ↦
            rw (gone, on_stream) (Agrees-closed id client (streaming key) _ rest h.sent _ a)
      ]
      on_stream-Agrees key message h q a =
          keeps (streaming key) h q (played id client key message rest h.sent a)

      -- The handler reads the message that comes first.
      pub on_read-hears :
          (message : Message) (ph : Phase) (h : Iroh)
          → h.phase ≡ ph
          → Agrees id client ph (message ∷ rest) h.sent
          → AgreesWith (on_read trust debug m input ph (ok message) h)
      unfolding on_read
      on_read-hears message greeting h q a = on_greeting-Agrees message h q a
      on_read-hears message (streaming key) h q a = on_stream-Agrees key message h q a
      on_read-hears message (closed r) h q a =
          keeps (closed r) h q (Agrees-closed id client (closed r) _ rest h.sent r a)

      -- The handler cannot read.
      pub on_read-loses :
          (e : String) (ph : Phase) (h : Iroh)
          → h.phase ≡ ph
          → Agrees id client ph rest h.sent
          → AgreesWith (on_read trust debug m input ph (err e) h)
      unfolding on_read
      on_read-loses e greeting h q a = Agrees-closed id client greeting rest rest h.sent _ a
      on_read-loses e (streaming key) h q a =
          Agrees-closed id client (streaming key) rest rest h.sent _ a
      on_read-loses e (closed r) h q a = keeps (closed r) h q a

      receive-Stands :
          (message : Message) (ph : Phase) (h : Iroh)
          → h.phase ≡ ph
          → Agrees id client ph (message ∷ rest) h.sent
          → let after = receive trust debug m input ph (ok message) h in
            Stands id client after.0 after.1 rest
      unfolding receive
      receive-Stands (handshake p) greeting h q a = (tt, q, a)
      receive-Stands (events batch) greeting h q a = on_read-hears (events batch) greeting h q a
      receive-Stands ping greeting h q a = on_read-hears ping greeting h q a
      receive-Stands pong greeting h q a = on_read-hears pong greeting h q a
      receive-Stands (handshake_ack s host text) greeting h q a =
          on_read-hears (handshake_ack s host text) greeting h q a
      receive-Stands message (streaming key) h q a = on_read-hears message (streaming key) h q a
      receive-Stands message (closed r) h q a = on_read-hears message (closed r) h q a

      -- The next piece of the reaction to a handshake.
      pub turn-Stands :
          (p : HandshakePayload) (point : Point) (h : Iroh)
          → Stands id client (reacting p point) h rest
          → let after = turn trust debug m input (reacting p point, h) in
            Stands id client after.0 after.1 rest
      unfolding turn advance at consult
      turn-Stands p admitting h (o, q, a) = enter-Agrees m p h a
      turn-Stands p answering h (o, q, a) =
          write-Agrees _ _ _ (λ r. Agrees-closed id client greeting _ rest h.sent r a)
            (dismissed id p rest h.sent _ _ _ client (ok tt) a)
      turn-Stands p checking h (o, q, a) = (tt, q, a)
      turn-Stands p (loading d) h (o, q, a) = (tt, q, a)
      turn-Stands p deciding h (o, q, a) =
          elim (Bool-cases (contains_key h.server.trust.memory.approved p.client_id)) [
            | inl known ↦ rw (known, turn) (tt, q, a)
            | inr unknown ↦ rw (unknown, turn) (tt, q, a)
          ]
      turn-Stands p reviewing h (o, q, a) = (tt, q, a)
      turn-Stands p (reloading d) h (o, q, a) = (tt, q, a)
      turn-Stands p registering h (o, q, a) = (tt, q, a)
      turn-Stands p done h (o, q, a) = absurd o

      -- A handler that waits reads the message that comes first.
      pub waiting-Stands :
          (message : Message) (h : Iroh)
          → Agrees id client h.phase (message ∷ rest) h.sent
          → input.read ≡ ok message
          → let after = turn trust debug m input (waiting, h) in
            Stands id client after.0 after.1 rest
      unfolding turn
      waiting-Stands message h a e =
          subst
            (λ (read : Result Message).
              Stands id client (receive trust debug m input h.phase read h).0
                (receive trust debug m input h.phase read h).1 rest)
            (sym e) (receive-Stands message h.phase h refl a)

      receive_err-Stands :
          (e : String) (ph : Phase) (h : Iroh)
          → h.phase ≡ ph
          → Agrees id client ph rest h.sent
          → let after = receive trust debug m input ph (err e) h in
            Stands id client after.0 after.1 rest
      unfolding receive
      receive_err-Stands e greeting h q a = on_read-loses e greeting h q a
      receive_err-Stands e (streaming key) h q a = on_read-loses e (streaming key) h q a
      receive_err-Stands e (closed r) h q a = on_read-loses e (closed r) h q a

      -- A handler that waits cannot read.
      pub loses-Stands :
          (e : String) (h : Iroh)
          → Agrees id client h.phase rest h.sent
          → input.read ≡ err e
          → let after = turn trust debug m input (waiting, h) in
            Stands id client after.0 after.1 rest
      unfolding turn receive
      loses-Stands e h a r =
          subst
            (λ (read : Result Message).
              Stands id client (receive trust debug m input h.phase read h).0
                (receive trust debug m input h.phase read h).1 rest)
            (sym r) (receive_err-Stands e h.phase h refl a)
