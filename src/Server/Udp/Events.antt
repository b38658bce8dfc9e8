-- ===== src/Server/Udp/Events.antt =====
-- What input events do over Direct UDP, and to whom.
use text.Mathlib.TextEquality.{eq_iff}
use joycast.Prelude.{String, ◌≡◌, none, some, List, [], ◌∷◌, ◌++◌, map, if◌then◌else◌, arith}
use joycast.Prelude.Outcome.{ok, Codec}
use joycast.Prelude.Map.{string_eq, ◌==◌, get}
use joycast.Prelude.Map.Laws.{get-modify}
use joycast.Trust.{TrustData}
use joycast.Transport.{SocketAddr, socket_addr_eq}
use joycast.Protocol.{EventWire, Wire}
use joycast.Device.Output.{Uinput, InputEvent, input_event, emit}
use joycast.Server.{Moment, SessionEntry, play}
use joycast.Server.Udp.{Udp, on_events}

-- The kernel takes every batch that is not empty.
abbrev pub Takes : Uinput → Type 0
Takes io = (batch : List InputEvent) → io.emit batch ≡ ok tt

-- the session after a batch of events
abbrev pub played : Moment → List EventWire → SessionEntry → List (List InputEvent) → SessionEntry
played m batch s emitted = record s {
  last_active = m.instant;
  vdev = record s.vdev { device = record s.vdev.device { emitted = emitted } };
}

pub play_lem :
    (m : Moment) (event : EventWire) (batch : List EventWire) (s : SessionEntry)
    → Takes m.uinput
    → play m (event ∷ batch) s
      ≡ played m (event ∷ batch) s (s.vdev.device.emitted ++ map input_event (event ∷ batch) ∷ [])
unfolding play emit
play_lem m event batch s takes = ground (arith, takes (map input_event (event ∷ batch)))

module _ (wire : Wire) (json : Codec TrustData String) where
  -- A datagram of events from a bound address, where the kernel takes the batch: its session is
  -- active now, and its virtual device gets the batch, each event with its type, code and value;
  -- every other session, the bindings, the trust data and the answers stay. Nothing of it depends
  -- on the trust data: a client whose approval was revoked goes on as before.
  pub on_events_lem :
      (m : Moment) (src : SocketAddr) (batch : List EventWire) (event : EventWire) (udp : Udp)
      (key : String) (s : SessionEntry)
      → Takes m.uinput
      → get udp.client_sessions src ≡ some key
      → get udp.server.sessions key ≡ some s
      → let after = on_events wire json m src (event ∷ batch) udp in
        ((k : String)
          → get after.server.sessions k ≡ (
              if key == k
              then some (
                  played m
                    (event ∷ batch)
                    s
                    (s.vdev.device.emitted ++ map input_event (event ∷ batch) ∷ []))
              else get udp.server.sessions k))
        × (after.client_sessions ≡ udp.client_sessions)
        × (after.server.trust ≡ udp.server.trust)
        × (after.server.files ≡ udp.server.files)
        × (after.sent ≡ udp.sent)
  unfolding on_events
  on_events_lem m src batch event udp key s takes bound there =
      let hit = play_lem m event batch s takes in
      (
        λ k. ground (
          arith,
          get-modify udp.server.sessions key k (play m (event ∷ batch)),
          eq_iff key k,
          hit,
        ),
        ground arith,
        ground arith,
        ground arith,
        ground arith,
      )

  -- A datagram of events from an address that is bound to no session changes nothing.
  pub on_events_unbound :
      (m : Moment) (src : SocketAddr) (batch : List EventWire) (udp : Udp)
      → get udp.client_sessions src ≡ none
      → on_events wire json m src batch udp ≡ udp
  unfolding on_events
  on_events_unbound m src batch udp h = rw (h, on_events)
