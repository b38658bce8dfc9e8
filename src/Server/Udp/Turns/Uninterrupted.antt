-- ===== src/Server/Udp/Turns/Uninterrupted.antt =====
-- A round of the loop with nothing in between is the step of Udp.
use joycast.Prelude.{
  ℕ, zero, suc, ◌≤◌, String, ◌≡◌, refl, ap, ◌∙◌, true, false, arith, inl, inr, Bool-cases,
}
use joycast.Prelude.Outcome.{Codec, Result-cases}
use joycast.Prelude.Map.{string_eq, remove}
use joycast.Trust.{TrustData, is_approved, register_pending}
use joycast.Transport.{SocketAddr, socket_addr_eq}
use joycast.Protocol.{
  Message, handshake, handshake_ack, events, ping, pong, HandshakePayload, Wire, decode,
}
use joycast.Server.{Moment}
use joycast.Server.Reaction.{checking, consult}
use joycast.Server.Reaction.Kept.{remember-stored}
use joycast.Server.Udp.{
  Udp, Received, datagram, recv_error, hold, received, on_handshake, on_message, step,
}
use joycast.Server.Udp.Turns.{Task, waiting, reacting, advance, at, begin, receive, turn}

module _ (wire : Wire) (json : Codec TrustData String) where
  unfoldable pub turns : ℕ → Moment → Received → Task × Udp → Task × Udp
  turns zero m r s = s
  turns (suc n) m r s = turns n m r (turn wire json m r s)

  -- The reaction to an approved client, from its first piece.
  admitted :
      (m : Moment) (r : Received) (src : SocketAddr) (p : HandshakePayload) (udp : Udp)
      → (is_approved json p.client_id udp.server.files udp.server.trust).0 ≡ true
      → turns 4 m r
          (reacting src p checking, record udp { client_sessions = remove udp.client_sessions src })
        ≡ (waiting, on_handshake wire json m src p udp)
  unfolding turns turn at advance consult on_handshake received is_approved
  admitted m r src p udp a = rw (remember-stored json udp.server, a) refl

  -- The reaction to a client that is not approved, from its first piece.
  held :
      (m : Moment) (r : Received) (src : SocketAddr) (p : HandshakePayload) (udp : Udp)
      → (is_approved json p.client_id udp.server.files udp.server.trust).0 ≡ false
      → turns 7 m r
          (reacting src p checking, record udp { client_sessions = remove udp.client_sessions src })
        ≡ (waiting, on_handshake wire json m src p udp)
  unfolding turns turn at advance consult on_handshake received is_approved hold register_pending
  held m r src p udp a =
      let seen = is_approved json p.client_id udp.server.files udp.server.trust in
      rw (remember-stored json udp.server, a)
        (rw (remember-stored json (record udp.server { trust = seen.1 })) refl)

  finishes :
      (m : Moment) (r : Received) (src : SocketAddr) (msg : Message) (udp : Udp)
      → (n : ℕ) × (n ≤ 7)
        × (turns n m r (begin wire json m src msg udp)
            ≡ (waiting, on_message wire json m src msg udp))
  unfolding turns begin on_message
  finishes m r src (handshake p) udp =
      elim (Bool-cases (is_approved json p.client_id udp.server.files udp.server.trust).0) [
        | inl a ↦ (4, omega arith, admitted m r src p udp a)
        | inr a ↦ (7, omega arith, held m r src p udp a)
      ]
  finishes m r src (events batch) udp = (0, omega arith, refl)
  finishes m r src ping udp = (0, omega arith, refl)
  finishes m r src pong udp = (0, omega arith, refl)
  finishes m r src (handshake_ack st host text) udp = (0, omega arith, refl)

  -- The task of the Direct UDP listener that is left alone between two datagrams is waiting again
  -- after at most eight of its turns, and has then done exactly what the step of the listener does.
  pub datagram_turns-step :
      (m : Moment) (r : Received) (udp : Udp)
      → (n : ℕ) × (n ≤ 8) × (turns n m r (waiting, udp) ≡ (waiting, step wire json m r udp))
  unfolding turns turn receive step
  datagram_turns-step m (recv_error e) udp = (1, omega arith, refl)
  datagram_turns-step m (datagram bytes src) udp = elim (Result-cases (decode wire bytes)) [
    | inl (msg, e) ↦
        let (n, few, same) = finishes m (datagram bytes src) src msg udp in
        let begun : receive wire json m (datagram bytes src) udp ≡ begin wire json m src msg udp =
          rw (e, receive) refl in
        (suc n, omega arith, ap (turns n m (datagram bytes src)) begun ∙ rw (e, step) same)
    | inr (x, e) ↦ (1, omega arith, rw (e, receive, step) refl)
  ]
