-- ===== src/Server/Udp/Enrolment.antt =====
-- The way of a client to its session over Direct UDP: the answer that it waits, the approval that this
-- answer asks for, and the next handshake.
use joycast.Prelude.{String, ◌≡◌, sym, subst, true, false}
use joycast.Prelude.Outcome.{ok, Codec}
use joycast.Prelude.Map.{Order}
use joycast.Trust.{TrustData, TrustManager, is_approved, register_pending}
use joycast.Trust.Commands.{approve}
use joycast.Trust.Disk.{current}
use joycast.Trust.Registration.{request}
use joycast.Trust.Enrolment.{CanEnrol, checked_enrolment}
use joycast.Transport.{SocketAddr}
use joycast.Protocol.{handshake, HandshakePayload, Wire}
use joycast.Server.{Server, Moment}
use joycast.Server.Udp.{Udp, hold, received, on_handshake, on_message}
use joycast.Server.Udp.Access.{server-send}
use joycast.Server.Udp.Served.{IsReady, IsServed, on_message-IsServed}

module _ (wire : Wire) (json : Codec TrustData String) where
  -- What the handshake of a client that is not approved leaves of the shared state.
  held_server :
      (m : Moment) (src : SocketAddr) (p : HandshakePayload) (udp : Udp)
      → (is_approved json p.client_id udp.server.files udp.server.trust).0 ≡ false
      → let seen = (is_approved json p.client_id udp.server.files udp.server.trust).1 in
        let entered =
          register_pending json p.client_id p.client_hostname p.metadata.name "Direct UDP" m.utc
            udp.server.files seen in
        (on_message wire json m src (handshake p) udp).server
        ≡ record udp.server { files = entered.0; trust = entered.1 }
  unfolding on_message on_handshake received hold
  held_server m src p udp a = rw a (server-send wire json src _ _)

  module _ (order : Order) where
    -- A client that is not approved greets the server, whose trust file can be read and written and
    -- whose trust data can be serialised with the request and then with the approval; the operator
    -- follows the answer and approves the client by its id, with any manager on the same file; and
    -- the client greets again, from any address and with any device whose session is there or can
    -- be made. Then the approval succeeds, for this client, and the client is served: its address
    -- is bound to the session of the handshake, which is active now.
    pub datagram_enrolment :
        (m again : Moment) (src back : SocketAddr) (p p' : HandshakePayload) (later : String)
        (operator : TrustManager) (udp : Udp)
        → (udp.server.files udp.server.trust.store_path).readable ≡ true
        → (udp.server.files udp.server.trust.store_path).writable ≡ true
        → CanEnrol json order
            (request p.client_id p.client_hostname p.metadata.name "Direct UDP" m.utc)
            later
            (current json udp.server.files udp.server.trust)
        → operator.store_path ≡ udp.server.trust.store_path
        → (is_approved json p.client_id udp.server.files udp.server.trust).0 ≡ false
        → p'.client_id ≡ p.client_id
        → IsReady again p' udp.server.sessions
        → let first = on_message wire json m src (handshake p) udp in
          let answer = approve json order p.client_id later first.server.files operator in
          let granted : Udp = record first { server = record first.server { files = answer.1 } } in
          (answer.0
            ≡ ok (record {
              client_id = p.client_id;
              hostname = p.client_hostname;
              device_name = p.metadata.name;
              approved_at = later;
            }))
          × IsServed wire json again back p'
              (on_message wire json again back (handshake p') granted)
    datagram_enrolment m again src back p p' later operator udp r w t po a same ready =
        let first = on_message wire json m src (handshake p) udp in
        let (done, entry) =
          checked_enrolment json order p.client_id p.client_hostname p.metadata.name "Direct UDP"
            m.utc later udp.server.files udp.server.trust operator r w t po a in
        subst
          (λ (s : Server).
            let answer = approve json order p.client_id later s.files operator in
            (answer.0
              ≡ ok (record {
                client_id = p.client_id;
                hostname = p.client_hostname;
                device_name = p.metadata.name;
                approved_at = later;
              }))
            × IsServed wire json again back p' (
                on_message wire json again back (handshake p')
                  (record first { server = record s { files = answer.1 } })))
          (sym (held_server m src p udp a))
          (done, on_message-IsServed wire json again back p' _ (rw same entry) ready)
