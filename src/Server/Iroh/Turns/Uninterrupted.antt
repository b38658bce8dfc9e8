-- ===== src/Server/Iroh/Turns/Uninterrupted.antt =====
-- The handler's reaction to a frame with nothing in between is the step of Iroh.
use joycast.Prelude.{ℕ, zero, suc, ◌≤◌, String, ◌≡◌, refl, true, false, arith, inl, inr, Bool-cases}
use joycast.Prelude.Outcome.{Result, ok, err, Codec}
use joycast.Prelude.Map.{string_eq}
use joycast.Trust.{TrustData, is_approved, register_pending}
use joycast.Protocol.{Message, handshake, handshake_ack, events, ping, pong, HandshakePayload}
use joycast.Server.{Moment}
use joycast.Server.Reaction.{checking, consult}
use joycast.Server.Reaction.Kept.{remember-stored}
use joycast.Server.Iroh.{
  Iroh, Input, Phase, greeting, streaming, closed, turn_away, checked, on_handshake, on_greeting,
  on_read, step,
}
use joycast.Server.Iroh.Turns.{Task, waiting, reacting, advance, at, receive, turn}

module _ (json : Codec TrustData String) (debug : Message → String) where
  unfoldable pub turns : ℕ → Moment → Input → Task × Iroh → Task × Iroh
  turns zero m i s = s
  turns (suc n) m i s = turns n m i (turn json debug m i s)

  -- The reaction to an approved client, from its first piece.
  admitted :
      (m : Moment) (i : Input) (p : HandshakePayload) (c : Iroh)
      → (is_approved json p.client_id c.server.files c.server.trust).0 ≡ true
      → turns 4 m i (reacting p checking, c) ≡ (waiting, on_handshake json m i p c)
  unfolding turns turn at advance consult on_handshake checked is_approved
  admitted m i p c a = rw (remember-stored json c.server, a) refl

  -- The reaction to a client that is not approved, from its first piece.
  held :
      (m : Moment) (i : Input) (p : HandshakePayload) (c : Iroh)
      → (is_approved json p.client_id c.server.files c.server.trust).0 ≡ false
      → turns 7 m i (reacting p checking, c) ≡ (waiting, on_handshake json m i p c)
  unfolding turns turn at advance consult on_handshake checked is_approved turn_away
      register_pending
  held m i p c a =
      let seen = is_approved json p.client_id c.server.files c.server.trust in
      rw (remember-stored json c.server, a)
        (rw (remember-stored json (record c.server { trust = seen.1 })) refl)

  finishes :
      (m : Moment) (i : Input) (ph : Phase) (read : Result Message) (c : Iroh)
      → (n : ℕ) × (n ≤ 7)
        × (turns n m i (receive json debug m i ph read c)
            ≡ (waiting, on_read json debug m i ph read c))
  unfolding turns receive on_read on_greeting
  finishes m i greeting (ok (handshake p)) c =
      elim (Bool-cases (is_approved json p.client_id c.server.files c.server.trust).0) [
        | inl a ↦ (4, omega arith, admitted m i p c a)
        | inr a ↦ (7, omega arith, held m i p c a)
      ]
  finishes m i greeting (ok (events batch)) c = (0, omega arith, refl)
  finishes m i greeting (ok ping) c = (0, omega arith, refl)
  finishes m i greeting (ok pong) c = (0, omega arith, refl)
  finishes m i greeting (ok (handshake_ack st host text)) c = (0, omega arith, refl)
  finishes m i greeting (err e) c = (0, omega arith, refl)
  finishes m i (streaming key) read c = (0, omega arith, refl)
  finishes m i (closed r) read c = (0, omega arith, refl)

  -- The handler of an Iroh connection that is left alone with a frame is waiting again after at
  -- most eight of its turns, and has then done exactly what the step of the handler does.
  pub frame_turns-step :
      (m : Moment) (i : Input) (c : Iroh)
      → (n : ℕ) × (n ≤ 8) × (turns n m i (waiting, c) ≡ (waiting, step json debug m i c))
  unfolding turns turn step
  frame_turns-step m i c =
      let (n, few, same) = finishes m i c.phase i.read c in (suc n, omega arith, same)
