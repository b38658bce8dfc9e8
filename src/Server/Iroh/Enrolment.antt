-- ===== src/Server/Iroh/Enrolment.antt =====
-- The way of a client to its session over Iroh: the answer that it waits, the approval that this answer
-- asks for, and the handshake on the next connection.
use joycast.Prelude.{String, ◌≡◌, refl, sym, ap, ◌∙◌, subst, true, false, []}
use joycast.Prelude.Outcome.{Result, ok, Codec}
use joycast.Prelude.Map.{Order}
use joycast.Trust.{TrustData, TrustManager, is_approved, register_pending}
use joycast.Trust.Commands.{approve}
use joycast.Trust.Disk.{current}
use joycast.Trust.Registration.{request}
use joycast.Trust.Enrolment.{CanEnrol, checked_enrolment}
use joycast.Protocol.{Message, handshake, HandshakePayload}
use joycast.Server.{Server, Moment}
use joycast.Server.Udp.Served.{IsReady}
use joycast.Server.Iroh.{
  Iroh, Input, Phase, greeting, turn_away, checked, on_handshake, on_greeting, on_read, step,
}
use joycast.Server.Iroh.Kept.{write_server}
use joycast.Server.Iroh.Served.{IsStreaming, step-IsStreaming}

module _ (json : Codec TrustData String) (debug : Message → String) where
  on_read_held :
      (m : Moment) (i : Input) (p : HandshakePayload) (c : Iroh)
      → (is_approved json p.client_id c.server.files c.server.trust).0 ≡ false
      → let seen = (is_approved json p.client_id c.server.files c.server.trust).1 in
        let entered =
          register_pending json p.client_id p.client_hostname p.metadata.name "Iroh P2P" m.utc
            c.server.files seen in
        (on_read json debug m i greeting (ok (handshake p)) c).server
        ≡ record c.server { files = entered.0; trust = entered.1 }
  unfolding on_read on_greeting on_handshake turn_away checked
  on_read_held m i p c a = rw a (write_server i _ _ _)

  -- What the handshake of a client that is not approved leaves of the shared state.
  held_server :
      (m : Moment) (i : Input) (p : HandshakePayload) (c : Iroh)
      → c.phase ≡ greeting
      → i.read ≡ ok (handshake p)
      → (is_approved json p.client_id c.server.files c.server.trust).0 ≡ false
      → let seen = (is_approved json p.client_id c.server.files c.server.trust).1 in
        let entered =
          register_pending json p.client_id p.client_hostname p.metadata.name "Iroh P2P" m.utc
            c.server.files seen in
        (step json debug m i c).server ≡ record c.server { files = entered.0; trust = entered.1 }
  unfolding step
  held_server m i p c ph x a =
      ap (λ (q : Phase). (on_read json debug m i q i.read c).server) ph
      ∙ (ap (λ (r : Result Message). (on_read json debug m i greeting r c).server) x
          ∙ on_read_held m i p c a)

  module _ (order : Order) where
    -- A client that is not approved greets the server on a connection, the trust file can be read
    -- and written and the trust data serialised with the request and then with the approval; the
    -- operator follows the answer and approves the client by its id, with any manager on the same
    -- file; and the client greets again on a new connection, with any device whose session is there
    -- or can be made. Then the approval succeeds, for this client, and the handler of the new
    -- connection, if it can write, has approved the client and serves it.
    pub frame_enrolment :
        (m again : Moment) (i j : Input) (p p' : HandshakePayload) (later : String)
        (operator : TrustManager) (c : Iroh)
        → (c.server.files c.server.trust.store_path).readable ≡ true
        → (c.server.files c.server.trust.store_path).writable ≡ true
        → CanEnrol json order
            (request p.client_id p.client_hostname p.metadata.name "Iroh P2P" m.utc)
            later
            (current json c.server.files c.server.trust)
        → operator.store_path ≡ c.server.trust.store_path
        → (is_approved json p.client_id c.server.files c.server.trust).0 ≡ false
        → p'.client_id ≡ p.client_id
        → IsReady again p' c.server.sessions
        → c.phase ≡ greeting
        → i.read ≡ ok (handshake p)
        → j.read ≡ ok (handshake p')
        → ((answer : Message) → j.write answer ≡ ok tt)
        → let first = step json debug m i c in
          let answer = approve json order p.client_id later first.server.files operator in
          let next : Iroh = record {
            server = record first.server { files = answer.1 };
            phase = greeting;
            sent = [];
          } in
          (answer.0
            ≡ ok (record {
              client_id = p.client_id;
              hostname = p.client_hostname;
              device_name = p.metadata.name;
              approved_at = later;
            }))
          × IsStreaming again p' [] (step json debug again j next)
    frame_enrolment m again i j p p' later operator c r w t po a same ready ph x y takes =
        let (done, entry) =
          checked_enrolment json order p.client_id p.client_hostname p.metadata.name "Iroh P2P"
            m.utc later c.server.files c.server.trust operator r w t po a in
        subst
          (λ (s : Server).
            let answer = approve json order p.client_id later s.files operator in
            (answer.0
              ≡ ok (record {
                client_id = p.client_id;
                hostname = p.client_hostname;
                device_name = p.metadata.name;
                approved_at = later;
              }))
            × IsStreaming again p' [] (
                step json debug again j
                  (record { server = record s { files = answer.1 }; phase = greeting; sent = [] })))
          (sym (held_server m i p c ph x a))
          (done, step-IsStreaming json debug again j p' _ refl y takes (rw same entry) ready)
