-- ===== src/Server/Udp/Turns/Guard.antt =====
-- What a turn of the Direct UDP listener keeps, whatever happens between its turns.
use joycast.Prelude.{String, ◌≡◌, sym, ap, ◌∙◌, subst, subst₂, some, arith, inl, inr}
use joycast.Prelude.Outcome.{Codec, Result-cases}
use joycast.Prelude.Map.{Map, string_eq, get}
use joycast.Prelude.Map.Laws.{get-remove}
use joycast.Trust.{TrustData}
use joycast.Trust.Invariant.{Holds}
use joycast.Transport.{SocketAddr, socket_addr_eq}
use joycast.Protocol.{
  Message, handshake, handshake_ack, events, ping, pong, HandshakePayload, Wire, decode,
}
use joycast.Server.{Moment}
use joycast.Server.Guard.{IsLicensed, IsLicensed-Closed, IsGranted, IsGuarded, consult-IsGuarded}
use joycast.Server.Reaction.{
  Point, checking, loading, deciding, admitting, reviewing, reloading, registering, answering, done,
  consult,
}
use joycast.Server.Reaction.Kept.{PointHolds}
use joycast.Server.Udp.{Udp, Received, datagram, recv_error, send, admit, on_message}
use joycast.Server.Udp.Access.{
  Entitled, admit_cases, Admission-keys, on_message-Entitled, server-send, bound-send,
}
use joycast.Server.Udp.Kept.{
  admit_trust, admit_bound, Admission-Distinct, on_message-Holds, on_message-Distinct,
  on_message_bound,
}
use joycast.Server.Udp.Turns.{Task, waiting, reacting, advance, at, begin, receive, turn}

module _ (wire : Wire) (json : Codec TrustData String) (L : String → Type 0) where
  abbrev pub TaskHolds : Task → Type 0
  TaskHolds waiting = Unit {0}
  TaskHolds (reacting src p point) = PointHolds (IsLicensed L) L p point

  -- The listener's share: also each session that an address is bound to is one that a client with
  -- `L` asked for.
  pub record IsSound (t : Task) (udp : Udp) : Type 0 where
    pub server : IsGuarded json L udp.server
    pub task : TaskHolds t
    pub bindings :
        (a : SocketAddr) (k : String) → get udp.client_sessions a ≡ some k → IsGranted L k

  at-TaskHolds :
      (src : SocketAddr) (p : HandshakePayload) (point : Point)
      → PointHolds (IsLicensed L) L p point
      → TaskHolds (at wire json src p point)
  unfolding at
  at-TaskHolds src p done k = tt
  at-TaskHolds src p checking k = k
  at-TaskHolds src p (loading d) k = k
  at-TaskHolds src p deciding k = k
  at-TaskHolds src p admitting k = k
  at-TaskHolds src p reviewing k = k
  at-TaskHolds src p (reloading d) k = k
  at-TaskHolds src p registering k = k
  at-TaskHolds src p answering k = k

  consulted :
      (m : Moment) (src : SocketAddr) (p : HandshakePayload) (point : Point) (udp : Udp)
      → IsSound (reacting src p point) udp
      → let after = consult json "Direct UDP" m p point udp.server in
        IsSound (at wire json src p after.0) (record udp { server = after.1 })
  consulted m src p point udp v =
      let (g, k) = consult-IsGuarded json L "Direct UDP" m p point udp.server v.task v.server in
      record { server = g; task = at-TaskHolds src p _ k; bindings = v.bindings }

  admit-IsSound :
      (m : Moment) (src : SocketAddr) (p : HandshakePayload) (udp : Udp)
      → IsSound (reacting src p admitting) udp
      → IsSound waiting (admit wire json m src p udp)
  admit-IsSound m src p udp v =
      let how = admit_cases wire json m src p udp in
      let (f, t) = admit_trust wire json m src p udp in
      record {
        server = record {
          trust = subst₂ (Holds json (IsLicensed L)) (sym f) (sym t) v.server.trust;
          sessions = λ k c. elim (Admission-keys wire json k how c) [
            | inl old ↦ v.server.sessions k old
            | inr new ↦ (p, new, v.task)
          ];
          distinct = Admission-Distinct wire json how v.server.distinct;
        };
        task = tt;
        bindings = λ a k c. elim (admit_bound wire json m src p udp a k c) [
          | inl old ↦ v.bindings a k old
          | inr new ↦ (p, new, v.task)
        ];
      }

  send-IsSound :
      (src : SocketAddr) (msg : Message) (task : Task) (udp : Udp)
      → IsGuarded json L udp.server
      → IsSound task udp
      → IsSound waiting (send wire json src msg udp)
  send-IsSound src msg task udp g v = record {
    server = subst (IsGuarded json L) (sym (server-send wire json src msg udp)) g;
    task = tt;
    bindings = λ a k c.
        v.bindings a k (
          sym (ap (λ (b : Map SocketAddr String). get b a) (bound-send wire json src msg udp)) ∙ c);
  }

  advance-IsSound :
      (m : Moment) (src : SocketAddr) (p : HandshakePayload) (point : Point) (udp : Udp)
      → IsSound (reacting src p point) udp
      → let after = advance wire json m src p point udp in
        IsSound (at wire json src p after.0) after.1
  unfolding advance at
  advance-IsSound m src p admitting udp v = admit-IsSound m src p udp v
  advance-IsSound m src p answering udp v = send-IsSound src _ _ udp v.server v
  advance-IsSound m src p checking udp v = consulted m src p checking udp v
  advance-IsSound m src p (loading d) udp v = consulted m src p (loading d) udp v
  advance-IsSound m src p deciding udp v = consulted m src p deciding udp v
  advance-IsSound m src p reviewing udp v = consulted m src p reviewing udp v
  advance-IsSound m src p (reloading d) udp v = consulted m src p (reloading d) udp v
  advance-IsSound m src p registering udp v = consulted m src p registering udp v
  advance-IsSound m src p done udp v = consulted m src p done udp v

  -- A message that is no handshake.
  plain-IsSound :
      (m : Moment) (src : SocketAddr) (msg : Message) (task : Task) (udp : Udp)
      → ((k : String) → Entitled wire json udp msg k → ⊥)
      → IsSound task udp
      → IsSound waiting (on_message wire json m src msg udp)
  plain-IsSound m src msg task udp other v = record {
    server = record {
      trust = on_message-Holds wire json (IsLicensed-Closed L) m src msg udp v.server.trust;
      sessions = λ k c. elim (on_message-Entitled wire json m src msg udp k c) [
        | inl old ↦ v.server.sessions k old
        | inr new ↦ absurd (other k new)
      ];
      distinct = on_message-Distinct wire json m src msg udp v.server.distinct;
    };
    task = tt;
    bindings = λ a k c. elim (on_message_bound wire json m src msg udp a k c) [
      | inl old ↦ v.bindings a k old
      | inr new ↦ absurd (other k new)
    ];
  }

  begin-IsSound :
      (m : Moment) (src : SocketAddr) (msg : Message) (udp : Udp)
      → IsSound waiting udp
      → let after = begin wire json m src msg udp in IsSound after.0 after.1
  unfolding begin
  begin-IsSound m src (handshake p) udp v = record {
    server = v.server;
    task = tt;
    bindings = λ a k c. v.bindings a k (ground (arith, get-remove udp.client_sessions src a));
  }
  begin-IsSound m src (events batch) udp v =
      plain-IsSound m src (events batch) waiting udp (λ k e. e) v
  begin-IsSound m src ping udp v = plain-IsSound m src ping waiting udp (λ k e. e) v
  begin-IsSound m src pong udp v = plain-IsSound m src pong waiting udp (λ k e. e) v
  begin-IsSound m src (handshake_ack st host text) udp v =
      plain-IsSound m src (handshake_ack st host text) waiting udp (λ k e. e) v

  pub turn-IsSound :
      (m : Moment) (r : Received) (task : Task) (udp : Udp)
      → IsSound task udp
      → let after = turn wire json m r (task, udp) in IsSound after.0 after.1
  unfolding turn receive
  turn-IsSound m (recv_error e) waiting udp v = v
  turn-IsSound m (datagram bytes src) waiting udp v = elim (Result-cases (decode wire bytes)) [
    | inl (msg, e) ↦ rw (e, receive) (begin-IsSound m src msg udp v)
    | inr (x, e) ↦ rw (e, receive) v
  ]
  turn-IsSound m r (reacting src p point) udp v = advance-IsSound m src p point udp v
