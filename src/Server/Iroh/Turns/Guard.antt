-- ===== src/Server/Iroh/Turns/Guard.antt =====
-- What a turn of an Iroh handler keeps, whatever happens between its turns.
use joycast.Prelude.{String, ◌≡◌, refl, sym, subst, subst₂, inl, inr}
use joycast.Prelude.Outcome.{Result, ok, err, Codec}
use joycast.Prelude.Map.{string_eq}
use joycast.Trust.{TrustData}
use joycast.Trust.Invariant.{Holds}
use joycast.Protocol.{Message, handshake, handshake_ack, events, ping, pong, HandshakePayload}
use joycast.Server.{Moment}
use joycast.Server.Guard.{IsLicensed, IsLicensed-Closed, IsGuarded, consult-IsGuarded}
use joycast.Server.Reaction.{
  Point, checking, loading, deciding, admitting, reviewing, reloading, registering, answering, done,
  consult,
}
use joycast.Server.Reaction.Kept.{PointHolds}
use joycast.Server.Iroh.{Iroh, Input, Phase, greeting, streaming, closed, enter, on_read}
use joycast.Server.Iroh.Access.{enter-keys, on_read-Entitled}
use joycast.Server.Iroh.Kept.{
  write_server, enter_trust, enter-Distinct, on_read-Holds, on_read-Distinct,
}
use joycast.Server.Iroh.Turns.{Task, waiting, reacting, advance, at, receive, turn}

module _ (json : Codec TrustData String) (L : String → Type 0) where
  abbrev pub TaskHolds : Task → Type 0
  TaskHolds waiting = Unit {0}
  TaskHolds (reacting p point) = PointHolds (IsLicensed L) L p point

  abbrev pub IsSound : Task × Iroh → Type 0
  IsSound (t, c) = IsGuarded json L c.server × TaskHolds t

  at-TaskHolds :
      (p : HandshakePayload) (point : Point)
      → PointHolds (IsLicensed L) L p point
      → TaskHolds (at json p point)
  unfolding at
  at-TaskHolds p done k = tt
  at-TaskHolds p checking k = k
  at-TaskHolds p (loading d) k = k
  at-TaskHolds p deciding k = k
  at-TaskHolds p admitting k = k
  at-TaskHolds p reviewing k = k
  at-TaskHolds p (reloading d) k = k
  at-TaskHolds p registering k = k
  at-TaskHolds p answering k = k

  consulted :
      (m : Moment) (p : HandshakePayload) (point : Point) (c : Iroh)
      → IsSound (reacting p point, c)
      → let after = consult json "Iroh P2P" m p point c.server in
        IsSound (at json p after.0, record c { server = after.1 })
  consulted m p point c (g, k) =
      let (g', k') = consult-IsGuarded json L "Iroh P2P" m p point c.server k g in
      (g', at-TaskHolds p _ k')

  enter-IsGuarded :
      (m : Moment) (i : Input) (p : HandshakePayload) (c : Iroh)
      → L p.client_id
      → IsGuarded json L c.server
      → IsGuarded json L (enter m i p c).server
  enter-IsGuarded m i p c l g =
      let (f, t) = enter_trust m i p c in
      record {
        trust = subst₂ (Holds json (IsLicensed L)) (sym f) (sym t) g.trust;
        sessions = λ k h. elim (enter-keys m i p c k h) [
          | inl old ↦ g.sessions k old
          | inr new ↦ (p, new, l)
        ];
        distinct = enter-Distinct m i p c g.distinct;
      }

  advance-IsSound :
      (m : Moment) (i : Input) (p : HandshakePayload) (point : Point) (c : Iroh)
      → IsSound (reacting p point, c)
      → let after = advance json m i p point c in IsSound (at json p after.0, after.1)
  unfolding advance at
  advance-IsSound m i p admitting c (g, k) = (enter-IsGuarded m i p c k g, tt)
  advance-IsSound m i p answering c (g, k) =
      (subst (IsGuarded json L) (sym (write_server i _ _ c)) g, tt)
  advance-IsSound m i p checking c v = consulted m p checking c v
  advance-IsSound m i p (loading d) c v = consulted m p (loading d) c v
  advance-IsSound m i p deciding c v = consulted m p deciding c v
  advance-IsSound m i p reviewing c v = consulted m p reviewing c v
  advance-IsSound m i p (reloading d) c v = consulted m p (reloading d) c v
  advance-IsSound m i p registering c v = consulted m p registering c v
  advance-IsSound m i p done c v = consulted m p done c v

  -- A frame that is no first handshake.
  plain-IsSound :
      (debug : Message → String) (m : Moment) (i : Input) (ph : Phase) (read : Result Message)
      (c : Iroh)
      → c.phase ≡ ph
      → i.read ≡ read
      → ((p : HandshakePayload) → c.phase ≡ greeting → i.read ≡ ok (handshake p) → ⊥)
      → IsGuarded json L c.server
      → IsSound (waiting, on_read json debug m i ph read c)
  plain-IsSound debug m i ph read c at_phase was_read other g = (
    record {
      trust = on_read-Holds json (IsLicensed-Closed L) debug m i ph read c g.trust;
      sessions = λ k h. elim (on_read-Entitled json debug m i ph read c k at_phase was_read h) [
        | inl old ↦ g.sessions k old
        | inr (p, is, first, _, _) ↦ absurd (other p first is)
      ];
      distinct = on_read-Distinct json debug m i ph read c g.distinct;
    },
    tt,
  )

  receive-IsSound :
      (debug : Message → String) (m : Moment) (i : Input) (ph : Phase) (read : Result Message)
      (c : Iroh)
      → c.phase ≡ ph
      → i.read ≡ read
      → IsGuarded json L c.server
      → IsSound (receive json debug m i ph read c)
  unfolding receive
  receive-IsSound debug m i greeting (ok (handshake p)) c e x g = (g, tt)
  receive-IsSound debug m i greeting (ok (events batch)) c e x g =
      plain-IsSound debug m i greeting (ok (events batch)) c e x (λ p a b. cc) g
  receive-IsSound debug m i greeting (ok ping) c e x g =
      plain-IsSound debug m i greeting (ok ping) c e x (λ p a b. cc) g
  receive-IsSound debug m i greeting (ok pong) c e x g =
      plain-IsSound debug m i greeting (ok pong) c e x (λ p a b. cc) g
  receive-IsSound debug m i greeting (ok (handshake_ack st host text)) c e x g =
      plain-IsSound debug m i greeting (ok (handshake_ack st host text)) c e x (λ p a b. cc) g
  receive-IsSound debug m i greeting (err z) c e x g =
      plain-IsSound debug m i greeting (err z) c e x (λ p a b. cc) g
  receive-IsSound debug m i (streaming key) read c e x g =
      plain-IsSound debug m i (streaming key) read c e x (λ p a b. cc) g
  receive-IsSound debug m i (closed r) read c e x g =
      plain-IsSound debug m i (closed r) read c e x (λ p a b. cc) g

  pub turn-IsSound :
      (debug : Message → String) (m : Moment) (i : Input) (t : Task) (c : Iroh)
      → IsSound (t, c)
      → IsSound (turn json debug m i (t, c))
  unfolding turn
  turn-IsSound debug m i waiting c (g, _) = receive-IsSound debug m i c.phase i.read c refl refl g
  turn-IsSound debug m i (reacting p point) c v = advance-IsSound m i p point c v
