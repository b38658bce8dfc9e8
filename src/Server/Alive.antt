-- ===== src/Server/Alive.antt =====
-- What keeps a session in the table of src/server.rs, with its virtual device.
use text.Mathlib.TextEquality.{eq_iff}
use joycast.Prelude.{
  ℕ, ◌-◌, ◌≤◌, ◌<◌, String, ◌≡◌, refl, ◌∙◌, false, some, List, arith, inl, inr, Bool-cases,
}
use joycast.Prelude.Outcome.{ok}
use joycast.Prelude.Map.{string_eq, ◌==◌, get, contains_key, modify, eq_self}
use joycast.Prelude.Map.Laws.{Distinct, get-modify}
use joycast.Protocol.{HandshakePayload, EventWire}
use joycast.Device.Output.{DeviceSetup, emit}
use joycast.Server.{
  Moment, Sessions, SessionEntry, session_key, create_session, touch, play, reap, inactive_limit,
}
use joycast.Server.Session.{get-reap, create_session-Creates}

-- The session under this key is there, was active at this time or later, and has this device.
abbrev pub Lasts : String → ℕ → DeviceSetup → Sessions → Type 0
Lasts key t d sessions =
    (s : SessionEntry) × (get sessions key ≡ some s)
    × (t ≤ s.last_active)
    × (s.vdev.device.setup ≡ d)

-- the session is active at the moment, and keeps its device
abbrev pub Refreshes : Moment → (SessionEntry → SessionEntry) → Type 0
Refreshes m f =
    (s : SessionEntry)
    → ((f s).last_active ≡ m.instant) × ((f s).vdev.device.setup ≡ s.vdev.device.setup)

pub touch-Refreshes : (m : Moment) → Refreshes m (touch m)
unfolding touch
touch-Refreshes m s = (refl, refl)

pub play-Refreshes : (m : Moment) (batch : List EventWire) → Refreshes m (play m batch)
unfolding play emit
play-Refreshes m batch s = (refl, ground arith)

module _ (key : String) (d : DeviceSetup) where
  -- A message that refreshes this session.
  pub modify-Lasts_now :
      (m : Moment) (f : SessionEntry → SessionEntry) (t : ℕ) (sessions : Sessions)
      → Refreshes m f
      → Lasts key t d sessions
      → Lasts key m.instant d (modify sessions key f)
  modify-Lasts_now m f t sessions fresh (s, there, active, same) =
      let (now, kept) = fresh s in
      (
        f s,
        ground (arith, get-modify sessions key key f, eq_self key),
        omega (arith, now),
        kept ∙ same,
      )

  -- A message that refreshes some session.
  pub modify-Lasts :
      (m : Moment) (k : String) (f : SessionEntry → SessionEntry) (t : ℕ) (sessions : Sessions)
      → Refreshes m f
      → t ≤ m.instant
      → Lasts key t d sessions
      → Lasts key t d (modify sessions k f)
  modify-Lasts m k f t sessions fresh h (s, there, active, same) = elim (Bool-cases (k == key)) [
    | inl is ↦
        let (now, kept) = fresh s in
        (f s, ground (arith, get-modify sessions k key f), omega (arith, now), kept ∙ same)
    | inr other ↦ (s, ground (arith, get-modify sessions k key f), active, same)
  ]

  -- Another session is created.
  pub create_session-Lasts :
      (m : Moment) (p : HandshakePayload) (t : ℕ) (sessions made : Sessions)
      → contains_key sessions (session_key p) ≡ false
      → create_session m p sessions ≡ ok made
      → Lasts key t d sessions
      → Lasts key t d made
  unfolding contains_key
  create_session-Lasts m p t sessions made absent e (s, there, active, same) =
      let c = create_session-Creates m p sessions made e in
      (s, ground (arith, c.all_keys key, eq_iff (session_key p) key), active, same)

  -- A round of the reaper less than 900 seconds later.
  pub reap-Lasts :
      (now t : ℕ) (sessions : Sessions)
      → Distinct sessions
      → now - t < inactive_limit
      → Lasts key t d sessions
      → Lasts key t d (reap now sessions)
  reap-Lasts now t sessions distinct soon (s, there, active, same) =
      (s, ground (arith, get-reap now sessions key distinct), active, same)
