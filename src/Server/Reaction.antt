-- ===== src/Server/Reaction.antt =====
-- The reaction of a listener of src/server.rs to a handshake, cut where other tasks and processes can
-- come between: the mutexes are taken and released in each piece, and the trust file is read outside
-- of them. `is_approved` and `register_pending` of src/trust.rs are pieces of their own here: the
-- reading of the file, the change of the memory, and what follows under the lock.
pub mod Kept
use joycast.Prelude.{String, Option, none, some, if◌then◌else◌}
use joycast.Prelude.Outcome.{Codec}
use joycast.Prelude.Map.{string_eq, contains_key}
use joycast.Trust.{PendingClientInfo, TrustData, TrustManager, record_pending}
use joycast.Trust.Disk.{stored}
use joycast.Protocol.{HandshakePayload}
use joycast.Server.{Server, Moment}

-- Where a task stands in its reaction, by what it does next.
pub data Point : Type 0 where
  -- `is_approved`: `reload` reads the file, and then sets the memory to what it has read
  checking : Point
  loading : Option TrustData → Point
  -- the lookup under the lock
  deciding : Point
  -- the client is approved: what is done under the lock of the sessions
  admitting : Point
  -- `register_pending`: its `reload`, and then the request is entered and saved under the lock
  reviewing : Point
  reloading : Option TrustData → Point
  registering : Point
  -- the answer that the client has to wait
  answering : Point
  done : Point

-- the end of `reload`
unfoldable pub remember : Option TrustData → TrustManager → TrustManager
remember (some d) tm = record tm { memory = d }
remember none tm = tm

-- what `register_pending` enters
abbrev pub request : String → Moment → HandshakePayload → PendingClientInfo
request transport m payload = record {
  client_id = payload.client_id;
  hostname = payload.client_hostname;
  device_name = payload.metadata.name;
  transport = transport;
  first_seen = m.utc;
}

module _ (json : Codec TrustData String) where
  -- The pieces that both listeners have in common; the others change nothing here.
  unfoldable pub consult : String → Moment → HandshakePayload → Point → Server → Point × Server
  consult transport m payload checking s = (loading (stored json s.files s.trust.store_path), s)
  consult transport m payload (loading d) s = (deciding, record s { trust = remember d s.trust })
  consult transport m payload deciding s =
      (if contains_key s.trust.memory.approved payload.client_id then admitting else reviewing, s)
  consult transport m payload reviewing s = (reloading (stored json s.files s.trust.store_path), s)
  consult transport m payload (reloading d) s =
      (registering, record s { trust = remember d s.trust })
  consult transport m payload registering s =
      let (files, trust) = record_pending json (request transport m payload) s.files s.trust in
      (answering, record s { files = files; trust = trust })
  consult transport m payload point s = (point, s)
