-- ===== src/History.antt =====
-- src/history.rs: the servers that the client has been connected to, the latest first, in a vector
-- that a JSON file keeps. The path is a parameter: where the caller gives none, the source joins the
-- system's directory for configuration with a fixed name. A method takes the file system and the
-- store, and returns what it leaves of both beside its result.
pub mod Record
use Prim.Native.Char.{Char}
use joycast.Prelude.{
  ℕ, ◌-◌, String, Bool, true, false, ◌&&◌, ◌||◌, not, Option, none, some, List, [], ◌∷◌,
  if◌then◌else◌, length, get_elem?, find, retain, eqb, ltb,
}
use joycast.Prelude.Outcome.{Result, ok, err, ◌>>=◌, with_context, Codec}
use joycast.Prelude.Map.{string_eq, ◌==◌}
use joycast.Prelude.Text.{trim, to_lowercase}
use joycast.Prelude.Files.{FileSystem, exists, read_to_string, write}

pub record KnownServerInfo : Type 0 where
  pub server_hostname : String
  pub target : String
  pub transport_type : String
  pub last_connected : String

-- `HistoryStore`; `HistoryData` has the one field `servers`
pub record HistoryStore : Type 0 where
  pub store_path : String
  pub servers : List KnownServerInfo

-- the test of `retain` in `record_connection`
abbrev pub is_other : String → String → KnownServerInfo → Bool
is_other server_hostname target s =
    not (s.target == target) && not (s.server_hostname == server_hostname)

-- `json` is serde_json on `HistoryData`.
module _ (json : Codec (List KnownServerInfo) String) where
  -- `HistoryStore::with_path`
  unfoldable pub with_path : FileSystem → String → HistoryStore
  unfolding exists read_to_string
  with_path fs path = record {
    store_path = path;
    servers =
        if exists fs path
        then elim (read_to_string fs path) [
          | ok content ↦ elim (json.decode content) [ ok d ↦ d | err e ↦ [] ]
          | err e ↦ []
        ]
        else [];
  }

  -- `save`
  unfoldable pub save : FileSystem → HistoryStore → Result (Unit {0}) × FileSystem
  unfolding write
  save fs store = elim (json.encode store.servers) [
    | err e ↦ (err "Failed to serialize history data", fs)
    | ok text ↦
        let (r, fs') = write fs store.store_path text in
        (with_context r "Failed to write history file", fs')
  ]

  -- `record_connection`, at the time `now`
  unfoldable pub record_connection :
      (server_hostname target transport_type now : String)
      → FileSystem
      → HistoryStore
      → Result (Unit {0}) × FileSystem × HistoryStore
  unfolding save
  record_connection server_hostname target transport_type now fs store =
      let entry : KnownServerInfo = record {
        server_hostname = server_hostname;
        target = target;
        transport_type = transport_type;
        last_connected = now;
      } in
      let rest = retain (is_other server_hostname target) store.servers in
      let store' = record store { servers = entry ∷ rest } in
      let (r, fs') = save fs store' in (r, fs', store')

-- `get_by_index`, from 1
unfoldable pub get_by_index : HistoryStore → ℕ → Option KnownServerInfo
get_by_index store index =
    if eqb index 0 || ltb (length store.servers) index
    then none
    else get_elem? store.servers (index - 1)

-- `find_by_hostname`; `unicode` is the lower case of the characters that are not ASCII
unfoldable pub find_by_hostname : (Char → String) → HistoryStore → String → Option KnownServerInfo
find_by_hostname unicode store hostname =
    let needle = to_lowercase unicode (trim hostname) in
    find (λ s. to_lowercase unicode s.server_hostname == needle) store.servers
