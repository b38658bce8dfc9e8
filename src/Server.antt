-- ===== src/Server.antt =====
-- src/server.rs: the sessions that the two listeners share, each with its virtual device, and the
-- reaper. The listeners are the child modules. A handler's reaction to one
-- message is one step here; Server/Reaction and the Turns modules cut it where tasks interleave.
pub mod Session
pub mod Udp
pub mod Iroh
pub mod Key
pub mod Start
pub mod Reaction
pub mod Guard
pub mod Owner
pub mod Alive
use Prim.Native.String.{◌++◌}
use joycast.Prelude.{
  ℕ, ◌+◌, ◌-◌, ◌≡◌, String, Bool, Option, none, some, List, if◌then◌else◌, eqb, ltb,
}
use joycast.Prelude.Text.{to_decimal}
use joycast.Prelude.Outcome.{Result, ok, err, ◌>>=◌}
use joycast.Prelude.Map.{
  Map, string_eq, ◌==◌, get, contains_key, insert, modify, retain_entries, count_values,
}
use joycast.Prelude.Files.{FileSystem}
use joycast.Trust.{TrustManager}
use joycast.Protocol.{HandshakePayload, EventWire}
use joycast.Device.Output.{Uinput, VirtualOutput, new_with_name, emit}

-- An `Instant` is a number of nanoseconds.
pub record SessionEntry : Type 0 where
  pub vdev : VirtualOutput
  pub last_active : ℕ
  pub client_hostname : String

abbrev pub Sessions : Type 0
Sessions = Map String SessionEntry

-- What the tasks of the server share.
pub record Server : Type 0 where
  pub files : FileSystem
  pub trust : TrustManager
  pub sessions : Sessions

-- What a step reads of the world: the two clocks, the host's name, and how uinput answers.
pub record Moment : Type 0 where
  pub instant : ℕ
  pub utc : String
  pub hostname : String
  pub uinput : Uinput

-- `dev_id_str`
unfoldable pub device_id_of : HandshakePayload → String
device_id_of payload = elim payload.device_id [ some id ↦ id | none ↦ payload.metadata.name ]

-- `format!("{}:{}", payload.client_id, dev_id_str)`
unfoldable pub session_key : HandshakePayload → String
unfolding device_id_of
session_key payload = payload.client_id ++ ":" ++ device_id_of payload

-- `dev_name`, by the number of the sessions of the same host
unfoldable pub device_name : ℕ → HandshakePayload → String
device_name count payload =
    if eqb count 0
    then payload.client_hostname ++ ": " ++ payload.metadata.name ++ " (Joycast)"
    else (payload.client_hostname
        ++ " #"
        ++ to_decimal (count + 1)
        ++ ": "
        ++ payload.metadata.name
        ++ " (Joycast)")

-- the sessions with a new one, under a key that is not there yet
unfoldable pub create_session : Moment → HandshakePayload → Sessions → Result Sessions
unfolding device_name
create_session m payload sessions = do
  let count = count_values (λ s. s.client_hostname == payload.client_hostname) sessions
  vdev ← new_with_name m.uinput payload.metadata (device_name count payload)
  ok (
      insert sessions (session_key payload) (record {
        vdev = vdev;
        last_active = m.instant;
        client_hostname = payload.client_hostname;
      }))

-- `entry.last_active = Instant::now()`
unfoldable pub touch : Moment → SessionEntry → SessionEntry
touch m s = record s { last_active = m.instant }

-- the same, and `let _ = session.vdev.emit(&events)`
unfoldable pub play : Moment → List EventWire → SessionEntry → SessionEntry
play m events s = record s { last_active = m.instant; vdev = (emit m.uinput s.vdev events).1 }

-- `Duration::from_secs(900)`
abbrev pub inactive_limit : ℕ
inactive_limit = 900_000_000_000

-- one round of the reaper of `run`; `duration_since` is zero for a time to come
unfoldable pub reap : ℕ → Sessions → Sessions
reap now sessions = retain_entries (λ s. ltb (now - s.last_active) inactive_limit) sessions
