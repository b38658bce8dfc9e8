-- ===== src/Trust.antt =====
-- src/trust.rs: the clients that wait for approval and those that have it, kept in a JSON file that
-- the running server and the command line share. Each operation reads the file first. The methods
-- take the file system and the manager, and return what they leave of both beside their result.
pub mod Commands
pub mod Status
pub mod Disk
pub mod Invariant
pub mod Approval
pub mod Revocation
pub mod Registration
pub mod Enrolment
pub mod Unambiguous
pub mod Race
pub mod Consistency
pub mod Listing
use text.Mathlib.Text.{starts_with}
use joycast.Prelude.{String, Bool, true, false, ◌||◌, Option, none, some, List, [], if◌then◌else◌}
use joycast.Prelude.Outcome.{Result, ok, err, with_context, Codec, ◌>>◌}
use joycast.Prelude.Map.{
  Map, Order, string_eq, ◌==◌, get, contains_key, insert, remove, find_key, values,
}
use joycast.Prelude.Sort.{sort_by}
use joycast.Prelude.Files.{FileSystem, exists, read_to_string, write}
use Prim.Native.String.{◌++◌}

pub record PendingClientInfo : Type 0 where
  pub client_id : String
  pub hostname : String
  pub device_name : String
  pub transport : String
  pub first_seen : String

pub record ApprovedClientInfo : Type 0 where
  pub client_id : String
  pub hostname : String
  pub device_name : String
  pub approved_at : String

pub record TrustData : Type 0 where
  pub approved : Map String ApprovedClientInfo
  pub pending : Map String PendingClientInfo

-- `TrustData::default()`
abbrev pub no_trust : TrustData
no_trust = record { approved = []; pending = [] }

-- The mutex is held across each change of `memory`, so a method is one step of the process.
pub record TrustManager : Type 0 where
  pub store_path : String
  pub memory : TrustData

-- What `is_root_context` reads of the environment, and the user's configuration directory.
pub record Environment : Type 0 where
  pub user : Option String
  pub sudo_user : Option String
  pub journal_stream : Option String
  pub systemd_exec_pid : Option String
  pub config_dir : Option String

abbrev is_ok : Option String → Bool
is_ok none = false
is_ok (some v) = true

abbrev or_default : Option String → String
or_default none = ""
or_default (some v) = v

-- `TrustManager::is_root_context`
unfoldable pub is_root_context : Environment → Bool
is_root_context env =
    or_default env.user == "root"
    || is_ok env.sudo_user
    || is_ok env.journal_stream
    || is_ok env.systemd_exec_pid

base_dir : Environment → FileSystem → String
unfolding is_root_context
base_dir env fs =
    if exists fs "/etc/joycast/trusted_clients.json" || is_root_context env
    then "/etc/joycast"
    else elim env.config_dir [ some cfg ↦ cfg ++ "/joycast" | none ↦ "/etc/joycast" ]

unfoldable pub store_file : Environment → FileSystem → Option String → String
unfolding base_dir
store_file env fs (some p) = p
store_file env fs none = base_dir env fs ++ "/trusted_clients.json"

unfoldable pub approval_of : PendingClientInfo → String → ApprovedClientInfo
approval_of pending now = record {
  client_id = pending.client_id;
  hostname = pending.hostname;
  device_name = pending.device_name;
  approved_at = now;
}

-- the two changes that `approve` makes to the maps
unfoldable pub move_approved : String → PendingClientInfo → String → TrustData → TrustData
unfolding approval_of
move_approved id pending now d = record {
  approved = insert d.approved id (approval_of pending now);
  pending = remove d.pending id;
}

-- `json` is serde_json.
module _ (json : Codec TrustData String) where
  -- the content of the file, or the default on any failure
  load : FileSystem → String → TrustData
  unfolding exists read_to_string
  load fs path =
      if exists fs path
      then elim (read_to_string fs path) [
        | ok content ↦ elim (json.decode content) [ ok d ↦ d | err e ↦ no_trust ]
        | err e ↦ no_trust
      ]
      else no_trust

  -- `TrustManager::new`
  unfoldable pub new : Environment → FileSystem → Option String → TrustManager
  unfolding store_file load
  new env fs store_path =
      let path = store_file env fs store_path in record { store_path = path; memory = load fs path }

  -- `reload`: what cannot be read or parsed leaves the memory alone
  unfoldable pub reload : FileSystem → TrustManager → TrustManager
  unfolding exists read_to_string
  reload fs tm =
      if exists fs tm.store_path
      then elim (read_to_string fs tm.store_path) [
        | ok content ↦ elim (json.decode content) [ ok d ↦ record tm { memory = d } | err e ↦ tm ]
        | err e ↦ tm
      ]
      else tm

  -- `save`
  unfoldable pub save : FileSystem → String → TrustData → Result (Unit {0}) × FileSystem
  unfolding write
  save fs path d = elim (json.encode d) [
    | err e ↦ (err "Failed to serialize trust data", fs)
    | ok text ↦
        let (r, fs') = write fs path text in
        (with_context r ("Failed to write trust data to " ++ path), fs')
  ]

  -- `is_approved`
  unfoldable pub is_approved : String → FileSystem → TrustManager → Bool × TrustManager
  is_approved client_id fs tm =
      let tm' = reload fs tm in (contains_key tm'.memory.approved client_id, tm')

  -- `register_pending` after its reload; the result of the save is dropped
  unfoldable pub record_pending :
      PendingClientInfo → FileSystem → TrustManager → FileSystem × TrustManager
  record_pending p fs tm =
      if contains_key tm.memory.approved p.client_id
      then (fs, tm)
      else (let d = record tm.memory { pending = insert tm.memory.pending p.client_id p } in
          ((save fs tm.store_path d).1, record tm { memory = d }))

  -- `register_pending`; `now` is the clock's text
  unfoldable pub register_pending :
      String
      → String
      → String
      → String
      → String
      → FileSystem
      → TrustManager
      → FileSystem × TrustManager
  register_pending client_id hostname device_name transport now fs tm =
      let p : PendingClientInfo = record {
        client_id = client_id;
        hostname = hostname;
        device_name = device_name;
        transport = transport;
        first_seen = now;
      } in
      record_pending p fs (reload fs tm)

  -- the part of `approve` under a matched id; its `unwrap` panics on a missing key
  unfoldable pub approve_match :
      String
      → String
      → FileSystem
      → TrustManager
      → Result ApprovedClientInfo × FileSystem × TrustManager
  unfolding approval_of move_approved
  approve_match id now fs tm = elim (get tm.memory.pending id) [
    | none ↦ (err "called `Option::unwrap()` on a `None` value", fs, tm)
    | some pending ↦
        let d = move_approved id pending now tm.memory in
        let (r, fs') = save fs tm.store_path d in
        (r >> ok (approval_of pending now), fs', record tm { memory = d })
  ]
