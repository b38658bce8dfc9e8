-- ===== src/Server/Session.antt =====
-- The session table: its keys, the reaper, and what creating a session adds.
use joycast.Prelude.{
  ℕ, ◌+◌, ◌-◌, ◌<◌, String, ◌≡◌, refl, subst, some, false, if◌then◌else◌, ltb, arith,
}
use joycast.Prelude.Outcome.{ok, >>=-eq-ok}
use joycast.Prelude.Map.{string_eq, ◌==◌, get, contains_key, insert, modify, count_values, eq_self}
use joycast.Prelude.Map.Laws.{
  Distinct, keep, get-retain_entries, get-insert, get-modify, insert-Distinct,
  contains_key-retain_entries, retain_entries-Distinct,
}
use joycast.Protocol.{HandshakePayload}
use joycast.Device.Output.{new_with_name}
use joycast.Device.Output.Mirror.{Mirrors, new_with_name-Mirrors}
use joycast.Server.{
  SessionEntry, Sessions, Moment, session_key, device_name, create_session, touch, reap,
  inactive_limit,
}

-- A round of the reaper keeps exactly the sessions that were active within the last 900 seconds,
-- unchanged, and removes the others. The keys of the table are distinct.
pub get-reap :
    (now : ℕ) (sessions : Sessions) (k : String)
    → Distinct sessions
    → get (reap now sessions) k
      ≡ keep (λ s. ltb (now - s.last_active) inactive_limit) (get sessions k)
unfolding reap
get-reap now sessions k d = get-retain_entries _ sessions k d

-- A session that a message touched lives through every round of the reaper that comes less than 900
-- seconds later.
pub reap-touch :
    (m : Moment) (now : ℕ) (sessions : Sessions) (k : String) (s : SessionEntry)
    → Distinct (modify sessions k (touch m))
    → get sessions k ≡ some s
    → now < m.instant + inactive_limit
    → get (reap now (modify sessions k (touch m))) k ≡ some (touch m s)
unfolding touch
reap-touch m now sessions k s d h t =
    rw (get-reap now (modify sessions k (touch m)) k d)
      (ground (arith, get-modify sessions k k (touch m), eq_self k))

-- What a successful `create_session` does: the new session mirrors the metadata, is active now and
-- belongs to the client's host; every other session stays.
pub record Creates (m : Moment) (payload : HandshakePayload) (before after : Sessions)
    : Type 0 where
  pub entry : SessionEntry
  pub found : get after (session_key payload) ≡ some entry
  pub active : entry.last_active ≡ m.instant
  pub host : entry.client_hostname ≡ payload.client_hostname
  pub all_keys :
      (k : String) → get after k ≡ (if session_key payload == k then some entry else get before k)
  pub distinct : Distinct before → Distinct after
  pub mirrors :
      Mirrors payload.metadata
        (device_name
          (count_values (λ s. s.client_hostname == payload.client_hostname) before)
          payload)
        entry.vdev

-- A `create_session` that succeeds adds one session under the key of the handshake, that mirrors
-- the metadata, is active now and belongs to the client's host; every other session stays.
pub create_session-Creates :
    (m : Moment) (payload : HandshakePayload) (sessions after : Sessions)
    → create_session m payload sessions ≡ ok after
    → Creates m payload sessions after
unfolding create_session
create_session-Creates m payload sessions after h =
    let (vdev, e, i) = >>=-eq-ok (new_with_name m.uinput payload.metadata _) _ h in
    let s : SessionEntry = record {
      vdev = vdev;
      last_active = m.instant;
      client_hostname = payload.client_hostname;
    } in
    let key = session_key payload in
    let same : insert sessions key s ≡ after = ground arith in
    record {
      entry = s;
      found = ground (arith, get-insert sessions key key s, eq_self key);
      active = refl;
      host = refl;
      all_keys = λ k. ground (arith, get-insert sessions key k s);
      distinct = λ d. subst (λ (x : Sessions). Distinct x) same (insert-Distinct sessions key s d);
      mirrors = new_with_name-Mirrors m.uinput payload.metadata _ vdev e;
    }

pub contains_key-reap :
    (now : ℕ) (sessions : Sessions) (k : String)
    → contains_key sessions k ≡ false
    → contains_key (reap now sessions) k ≡ false
unfolding reap
contains_key-reap now sessions k h = contains_key-retain_entries _ sessions k h

pub reap-Distinct :
    (now : ℕ) (sessions : Sessions) → Distinct sessions → Distinct (reap now sessions)
unfolding reap
reap-Distinct now sessions d = retain_entries-Distinct _ sessions d
