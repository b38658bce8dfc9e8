-- ===== src/Client.antt =====
-- src/client.rs: which server and device the client uses, and how it finds the device again. What the
-- system returns is given: the enumerated devices, whether a path can be opened, the line that the
-- user types. The loops of the two transports are in child modules.
pub mod Target
pub mod Reopen
pub mod Iroh
pub mod Start
pub mod Udp
use Prim.Native.Char.{Char}
use Prim.Native.String.{◌++◌}
use joycast.Prelude.{
  ℕ, ◌-◌, String, Bool, true, false, ◌&&◌, ◌||◌, not, Option, none, some, List, [], ◌∷◌,
  if◌then◌else◌, length, get_elem?, is_empty, eqb, ltb,
}
use joycast.Prelude.Outcome.{Result, ok, err, ◌>>=◌, with_context, Codec}
use joycast.Prelude.Map.{string_eq, ◌==◌}
use joycast.Prelude.Text.{trim}
use joycast.Prelude.Files.{FileSystem, exists, read_to_string, write}
use joycast.Protocol.{DeviceMetadata, EventWire, Message, events, HandshakePayload}
use joycast.Transport.{TargetAddress, Addresses, from_str}
use joycast.History.{KnownServerInfo, HistoryStore, with_path, get_by_index, find_by_hostname}
use joycast.Device.{Device, DeviceInfo, KeyCodes, extract_metadata}
use joycast.Device.Listing.{list_devices_filtered}
use joycast.Device.Output.{InputEvent}

pub record DeviceIdentity : Type 0 where
  pub name : String
  pub bustype : ℕ
  pub vendor : ℕ
  pub product : ℕ
  pub version : ℕ

-- `DeviceIdentity::from_metadata`
unfoldable pub from_metadata : DeviceMetadata → DeviceIdentity
from_metadata metadata = record {
  name = metadata.name;
  bustype = metadata.bustype;
  vendor = metadata.vendor;
  product = metadata.product;
  version = metadata.version;
}

-- the derived `PartialEq`
unfoldable pub same_identity : DeviceIdentity → DeviceIdentity → Bool
same_identity a b =
    a.name == b.name
    && eqb a.bustype b.bustype
    && eqb a.vendor b.vendor
    && eqb a.product b.product
    && eqb a.version b.version

-- `DeviceIdentity::matches`
unfoldable pub matches : DeviceIdentity → DeviceMetadata → Bool
unfolding same_identity from_metadata
matches identity metadata = same_identity identity (from_metadata metadata)

pub record ReconnectingDevice : Type 0 where
  pub preferred_path : String
  pub identity : DeviceIdentity

-- `ReconnectingDevice::new`
unfoldable pub reconnecting : String → DeviceMetadata → ReconnectingDevice
unfolding from_metadata
reconnecting preferred_path metadata = record {
  preferred_path = preferred_path;
  identity = from_metadata metadata;
}

-- the loop of `try_reopen`: the device at the preferred path, or else the first that matches
unfoldable pub search :
    ReconnectingDevice
    → Option (String × Device)
    → List (String × Device)
    → Option (String × Device)
unfolding matches
search r fallback [] = fallback
search r fallback ((path, device) ∷ devices) =
    let later = search r fallback devices in
    let later' = search r (some (path, device)) devices in
    if not (matches r.identity (extract_metadata device))
    then later
    else if path == r.preferred_path
    then some (path, device)
    else elim fallback [ none ↦ later' | some f ↦ later ]

-- `ReconnectingDevice::try_reopen` on the enumerated devices
unfoldable pub try_reopen :
    List (String × Device) → ReconnectingDevice → Option Device × ReconnectingDevice
unfolding search
try_reopen devices r = elim (search r none devices) [
  | none ↦ (none, r)
  | some (path, device) ↦ (some device, record r { preferred_path = path })
]

-- `event_message`
unfoldable pub event_message : InputEvent → Message
event_message event =
    events (record { type_ = event.type_; code = event.code; value = event.value } ∷ [])

pub record DeviceSelection : Type 0 where
  pub requested_path : Option String
  pub keyboard : Bool
  pub mouse : Bool
  pub all : Bool

module _ (codes : KeyCodes) (unicode : Char → String) where
  -- `try_open_initial_device`: `opened` is what `Device::open` gives, `devices` what is enumerated
  unfoldable pub try_open_initial_device :
      (String → Result Device)
      → List (String × Device)
      → DeviceSelection
      → Option (Device × String) × DeviceSelection
  try_open_initial_device opened devices selection = elim selection.requested_path [
    | some path ↦ elim (opened path) [
      | ok device ↦ (some (device, path), selection)
      | err e ↦ (none, selection)
    ]
    | none ↦
        elim (list_devices_filtered codes unicode selection.keyboard selection.mouse selection.all
          devices) [
            | [] ↦ (none, selection)
            | selected ∷ rest ↦ elim (opened selected.path) [
              | ok device ↦ (
                some (device, selected.path),
                record selection { requested_path = some selected.path },
              )
              | err e ↦ (none, selection)
            ]
          ]
  ]

-- `load_or_create_client_id`, with the file's path and the id to use if there is none yet
unfoldable pub load_or_create_client_id : FileSystem → String → String → String × FileSystem
unfolding exists read_to_string write trim
load_or_create_client_id fs id_file generated =
    let new_id : String × FileSystem = (generated, (write fs id_file generated).1) in
    if exists fs id_file
    then elim (read_to_string fs id_file) [
      | ok id ↦ if trim id == "" then new_id else (trim id, fs)
      | err e ↦ new_id
    ]
    else new_id

-- `parse_usize` is `str::parse::<usize>`; a store is read from the client's
-- history file, `path`, whose default is the caller's.
module _ (addresses : Addresses) (unicode : Char → String) (parse_usize : String → Option ℕ) where
  -- the branch of `resolve_target` with a target
  unfoldable pub resolve_specified :
      Codec (List KnownServerInfo) String
      → FileSystem
      → String
      → String
      → Result (TargetAddress × String)
  resolve_specified json fs path target_str = elim (from_str addresses target_str) [
    | ok target ↦ ok (target, target_str)
    | err e ↦ elim (find_by_hostname unicode (with_path json fs path) target_str) [
      | some matched ↦ do target ← from_str addresses matched.target; ok (target, matched.target)
      | none ↦ err (
          "Could not resolve target '" ++ target_str
          ++ "'. Must be an IP address (e.g. 192.168.1.50:12398), a 64-character Iroh Node ID, or a known server hostname in history.")
    ]
  ]

  -- a selection that the user types, from 1
  unfoldable pub parse_choice : Result String → String → Result ℕ
  parse_choice input failure = do
    line ← with_context input failure
    elim (parse_usize (trim line)) [
      | some choice ↦ ok choice
      | none ↦ err "Invalid selection index"
    ]

  -- the branch without one; `input` is what is read from the user
  unfoldable pub select_server : HistoryStore → Result String → Result (TargetAddress × String)
  select_server history input =
      if is_empty history.servers
      then err
          "No target specified and no previously connected servers found. Specify a target with 'joycast client <TARGET>'"
      else do
        choice ← parse_choice input "Failed to read input selection"
        elim (get_by_index history choice) [
          | none ↦ err "Selection out of bounds"
          | some selected ↦ do
            target ← from_str addresses selected.target
            ok (target, selected.target)
        ]

  -- `resolve_target`
  unfoldable pub resolve_target :
      Codec (List KnownServerInfo) String
      → FileSystem
      → String
      → Option String
      → Result String
      → Result (TargetAddress × String)
  resolve_target json fs path (some target_str) input = resolve_specified json fs path target_str
  resolve_target json fs path none input = select_server (with_path json fs path) input

  -- the device of `new` when no path is configured, of the devices that are listed
  unfoldable pub select_device : List DeviceInfo → Result String → Result (Option String)
  select_device [] input = ok none
  select_device (d ∷ []) input = ok (some d.path)
  select_device devices input = do
    choice ← parse_choice input "Failed to read device selection"
    if eqb choice 0 || ltb (length devices) choice
        then err "Selection index out of bounds"
        else elim (get_elem? devices (choice - 1)) [
          | some d ↦ ok (some d.path)
          | none ↦ err "index out of bounds"
        ]
