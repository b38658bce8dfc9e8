-- ===== src/Server/Udp.antt =====
-- `run_udp_server` of src/server.rs: the loop of the Direct UDP listener, a datagram at a time.
pub mod Access
pub mod Events
pub mod Kept
pub mod Served
pub mod Turns
pub mod Enrolment
pub mod Alive
use Prim.Native.String.{◌++◌}
use mathlib.Core.List.{◌++◌ as append}
use joycast.Prelude.{ℕ, String, Option, none, some, List, [], ◌∷◌, if◌then◌else◌}
use joycast.Prelude.Outcome.{Result, ok, err, Codec}
use joycast.Prelude.Map.{Map, string_eq, get, contains_key, insert, modify, remove}
use joycast.Trust.{TrustData, is_approved, register_pending}
use joycast.Transport.{SocketAddr, socket_addr_eq}
use joycast.Protocol.{
  Message, handshake, handshake_ack, events, ping, pong, AckStatus, approved, pending_approval,
  rejected, HandshakePayload, EventWire, Wire, encode, decode,
}
use joycast.Server.{Server, Moment, Sessions, session_key, create_session, touch, play}

-- The state of the loop, with what has been sent, oldest first.
pub record Udp : Type 0 where
  pub server : Server
  pub client_sessions : Map SocketAddr String
  pub sent : List (SocketAddr × List ℕ)

-- `socket.recv_from`
pub data Received : Type 0 where
  datagram : List ℕ → SocketAddr → Received
  recv_error : String → Received

abbrev ack : AckStatus → Moment → String → Message
ack status m message = handshake_ack status m.hostname message

module _ (wire : Wire) (json : Codec TrustData String) where
  -- `if let Ok(bytes) = message.encode() { let _ = socket.send_to(&bytes, src).await; }`
  unfoldable pub send : SocketAddr → Message → Udp → Udp
  send src message udp = elim (encode wire message) [
    | ok bytes ↦ record udp { sent = append udp.sent ((src, bytes) ∷ []) }
    | err e ↦ udp
  ]

  -- the end of the branch of an approved client
  unfoldable pub bind_session : Moment → SocketAddr → HandshakePayload → Sessions → Udp → Udp
  bind_session m src payload sessions udp =
      send src (ack approved m "Connection authorized") (record udp {
        server = record udp.server { sessions = sessions };
        client_sessions = insert udp.client_sessions src (session_key payload);
      })

  -- the answer when no virtual device can be made
  unfoldable pub refuse : Moment → SocketAddr → String → Udp → Udp
  refuse m src e udp = send src (ack rejected m ("Failed to create virtual device: " ++ e)) udp

  -- the branch of an approved client
  unfoldable pub admit : Moment → SocketAddr → HandshakePayload → Udp → Udp
  admit m src payload udp =
      let sessions = udp.server.sessions in
      if contains_key sessions (session_key payload)
      then bind_session m src payload (modify sessions (session_key payload) (touch m)) udp
      else elim (create_session m payload sessions) [
        | ok sessions' ↦ bind_session m src payload sessions' udp
        | err e ↦ refuse m src e udp
      ]

  -- the branch of a client that is not approved
  unfoldable pub hold : Moment → SocketAddr → HandshakePayload → Udp → Udp
  hold m src payload udp =
      let (files, trust) =
        register_pending json payload.client_id payload.client_hostname payload.metadata.name
          "Direct UDP" m.utc udp.server.files udp.server.trust in
      send src
        (ack pending_approval m (
          "Connection pending authorization on server. Run 'joycast server approve "
          ++ payload.client_id ++ "' to authorize."))
        (record udp { server = record udp.server { files = files; trust = trust } })

  -- what a handshake changes at once: the source is bound to no session, and the trust data is
  -- read again
  unfoldable pub received : SocketAddr → HandshakePayload → Udp → Udp
  received src payload udp = record udp {
    client_sessions = remove udp.client_sessions src;
    server = record udp.server {
      trust = (is_approved json payload.client_id udp.server.files udp.server.trust).1;
    };
  }

  -- `Message::Handshake(payload)`
  unfoldable pub on_handshake : Moment → SocketAddr → HandshakePayload → Udp → Udp
  on_handshake m src payload udp =
      if (is_approved json payload.client_id udp.server.files udp.server.trust).0
      then admit m src payload (received src payload udp)
      else hold m src payload (received src payload udp)

  -- `Message::Events(events)`
  unfoldable pub on_events : Moment → SocketAddr → List EventWire → Udp → Udp
  on_events m src batch udp = elim (get udp.client_sessions src) [
    | none ↦ udp
    | some key ↦ record udp {
      server = record udp.server { sessions = modify udp.server.sessions key (play m batch) };
    }
  ]

  -- `Message::Ping`, up to the answer
  unfoldable pub pinged : Moment → SocketAddr → Udp → Udp
  pinged m src udp = elim (get udp.client_sessions src) [
    | none ↦ udp
    | some key ↦ record udp {
      server = record udp.server { sessions = modify udp.server.sessions key (touch m) };
    }
  ]

  -- `Message::Ping`
  unfoldable pub on_ping : Moment → SocketAddr → Udp → Udp
  unfolding pinged
  on_ping m src udp = send src pong (pinged m src udp)

  unfoldable pub on_message : Moment → SocketAddr → Message → Udp → Udp
  on_message m src (handshake payload) udp = on_handshake m src payload udp
  on_message m src (events batch) udp = on_events m src batch udp
  on_message m src ping udp = on_ping m src udp
  on_message m src _ udp = udp

  -- one round of the loop
  unfoldable pub step : Moment → Received → Udp → Udp
  step m (recv_error e) udp = udp
  step m (datagram bytes src) udp = elim (decode wire bytes) [
    | ok message ↦ on_message m src message udp
    | err e ↦ udp
  ]
