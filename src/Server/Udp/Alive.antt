-- ===== src/Server/Udp/Alive.antt =====
-- A client that goes on over Direct UDP, beside any other clients, the reaper and other processes.
pub mod Messages
use joycast.Prelude.{
  ℕ, ◌-◌, ◌≤◌, ◌<◌, String, ◌≡◌, ◌≢◌, refl, sym, ap, ◌∙◌, subst, true, false, some, List, [], ◌∷◌,
  arith, ◌⊎◌, inl, inr, Bool-cases, Option-cases,
}
use joycast.Prelude.Outcome.{Codec}
use joycast.Prelude.Map.{Map, string_eq, get, remove}
use joycast.Prelude.Map.Laws.{Distinct, get-insert, get-remove}
use joycast.Trust.{TrustData, is_approved}
use joycast.Transport.{SocketAddr, socket_addr_eq}
use joycast.Protocol.{
  Message, handshake, handshake_ack, events, ping, pong, HandshakePayload, EventWire, Wire,
}
use joycast.Device.Output.{DeviceSetup}
use joycast.Server.{Moment, Sessions, session_key, touch, play, reap, inactive_limit}
use joycast.Server.Session.{reap-Distinct}
use joycast.Server.Alive.{
  Lasts, touch-Refreshes, play-Refreshes, modify-Lasts_now, modify-Lasts, create_session-Lasts,
  reap-Lasts,
}
use joycast.Server.Udp.{
  Udp, send, refuse, received, bind_session, admit, hold, on_handshake, on_events, on_ping, pinged,
  on_message,
}
use joycast.Server.Udp.Alive.Messages.{IsPlay, IsKept, own-IsKept, other-IsKept}
use joycast.Prelude.Files.{FileSystem}
use joycast.Server.Udp.Access.{
  Admission, reused, created, refused, admit_cases, bound-keys, sessions-send, bound-send,
  sessions-hold,
}
use joycast.Server.Udp.Kept.{on_message-Distinct, bound-hold}

-- what happens to the state of the listener
pub data Event : Type 0 where
  message : Moment → SocketAddr → Message → Event
  reaping : ℕ → Event
  -- another process writes files
  written : FileSystem → Event

-- The clock does not go back, the client at `src` sends nothing but what it sends in its main loop, and
-- each round of the reaper comes less than 900 seconds after its last message; `t` is the time of this.
abbrev pub Timely : SocketAddr → ℕ → List Event → Type 0
Timely src t [] = Unit {0}
Timely src t (reaping now ∷ es) = (now - t < inactive_limit) × Timely src t es
Timely src t (written files ∷ es) = Timely src t es
Timely src t (message m a msg ∷ es) =
    (t ≤ m.instant)
    × ((a ≡ src) × IsPlay msg × Timely src m.instant es ⊎ (a ≢ src) × Timely src t es)

module _ (wire : Wire) (json : Codec TrustData String) where
  abbrev pub after : Event → Udp → Udp
  after (message m a msg) udp = on_message wire json m a msg udp
  after (reaping now) udp = record udp {
    server = record udp.server { sessions = reap now udp.server.sessions };
  }
  after (written files) udp = record udp { server = record udp.server { files = files } }

  pub run : List Event → Udp → Udp
  run [] udp = udp
  run (e ∷ es) udp = run es (after e udp)

  module _ (src : SocketAddr) (key : String) (d : DeviceSetup) where
    -- A client whose address is bound to a session keeps it: whatever other clients send over
    -- Direct UDP, with the reaper at work, and whatever becomes of the files, after any run that is
    -- timely the address is bound to the same session, which is in the table with the same virtual
    -- device. Timely: the clock does not go back, the client sends nothing but events and pings,
    -- and each round of the reaper comes less than 900 seconds after its last one.
    pub run-IsKept :
        (es : List Event) (t : ℕ) (udp : Udp)
        → Timely src t es
        → IsKept wire json src key d t udp
        → (last : ℕ) × IsKept wire json src key d last (run es udp)
    unfolding run
    run-IsKept [] t udp h v = (t, v)
    run-IsKept (reaping now ∷ es) t udp (soon, h) v =
        run-IsKept es t (after (reaping now) udp) h (record {
          bound = v.bound;
          lasts = reap-Lasts key d now t udp.server.sessions v.distinct soon v.lasts;
          distinct = reap-Distinct now udp.server.sessions v.distinct;
        })
    run-IsKept (written files ∷ es) t udp h v =
        run-IsKept es t (after (written files) udp) h
          (record { bound = v.bound; lasts = v.lasts; distinct = v.distinct })
    run-IsKept (message m a msg ∷ es) t udp (later, inl (own, play, h)) v =
        run-IsKept es m.instant (after (message m a msg) udp) h (
          subst
            (λ (x : SocketAddr).
              IsKept wire json src key d m.instant (on_message wire json m x msg udp))
            (sym own) (own-IsKept wire json src key d m msg t udp play v))
    run-IsKept (message m a msg ∷ es) t udp (later, inr (other, h)) v =
        run-IsKept es t (after (message m a msg) udp) h
          (other-IsKept wire json src key d m a msg t udp other later v)
