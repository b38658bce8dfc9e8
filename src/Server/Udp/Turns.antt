-- ===== src/Server/Udp/Turns.antt =====
-- `run_udp_server` of src/server.rs, a piece of its body at a time, where Udp has a whole round.
pub mod Uninterrupted
pub mod Guard
use joycast.Prelude.{String, none}
use joycast.Prelude.Outcome.{ok, err, Codec}
use joycast.Prelude.Map.{remove}
use Prim.Native.String.{◌++◌}
use joycast.Trust.{TrustData}
use joycast.Transport.{SocketAddr, socket_addr_eq}
use joycast.Protocol.{
  Message, handshake, handshake_ack, pending_approval, HandshakePayload, Wire, decode,
}
use joycast.Server.{Moment}
use joycast.Server.Reaction.{
  Point, checking, loading, deciding, admitting, reviewing, reloading, registering, answering, done,
  consult,
}
use joycast.Server.Udp.{Udp, Received, datagram, recv_error, send, admit, on_message}

-- The task waits for a datagram, or is in the middle of a reaction to a handshake.
pub data Task : Type 0 where
  waiting : Task
  reacting : SocketAddr → HandshakePayload → Point → Task

module _ (wire : Wire) (json : Codec TrustData String) where
  -- the next piece of a reaction
  unfoldable pub advance : Moment → SocketAddr → HandshakePayload → Point → Udp → Point × Udp
  advance m src payload admitting udp = (done, admit wire json m src payload udp)
  advance m src payload answering udp = (
    done,
    send wire json src
        (handshake_ack pending_approval m.hostname (
          "Connection pending authorization on server. Run 'joycast server approve "
          ++ payload.client_id ++ "' to authorize."))
        udp,
  )
  advance m src payload point udp =
      let (next, server) = consult json "Direct UDP" m payload point udp.server in
      (next, record udp { server = server })

  -- where a task is at this point
  unfoldable pub at : SocketAddr → HandshakePayload → Point → Task
  at src payload done = waiting
  at src payload point = reacting src payload point

  -- A message arrives: all but a handshake are dealt with under one lock.
  unfoldable pub begin : Moment → SocketAddr → Message → Udp → Task × Udp
  begin m src (handshake payload) udp = (
    reacting src payload checking,
    record udp { client_sessions = remove udp.client_sessions src },
  )
  begin m src message udp = (waiting, on_message wire json m src message udp)

  unfoldable pub receive : Moment → Received → Udp → Task × Udp
  receive m (recv_error e) udp = (waiting, udp)
  receive m (datagram bytes src) udp = elim (decode wire bytes) [
    | ok message ↦ begin m src message udp
    | err e ↦ (waiting, udp)
  ]

  -- one turn of the task; `r` is what it receives, if it waits
  unfoldable pub turn : Moment → Received → Task × Udp → Task × Udp
  turn m r (waiting, udp) = receive m r udp
  turn m r (reacting src payload point, udp) =
      let (next, udp') = advance m src payload point udp in (at src payload next, udp')
