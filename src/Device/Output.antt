-- ===== src/Device/Output.antt =====
-- `VirtualOutput` of src/device.rs: the uinput device that the server makes of a client's metadata.
pub mod Mirror
use Prim.Native.String.{◌++◌}
use joycast.Prelude.{ℕ, String, Bool, List, [], ◌∷◌, map, is_empty, if◌then◌else◌}
use mathlib.Core.List.{◌++◌ as append}
use joycast.Prelude.Int.{ℤ}
use joycast.Prelude.Outcome.{Result, ok, err, with_context, ◌>>=◌, ◌>>◌}
use joycast.Protocol.{AbsAxisWire, DeviceMetadata, EventWire}
use joycast.Device.{AbsInfo, has}

-- `evdev::UinputAbsSetup`
pub record AbsSetup : Type 0 where
  pub code : ℕ
  pub info : AbsInfo

-- `evdev::InputEvent`
pub record InputEvent : Type 0 where
  pub type_ : ℕ
  pub code : ℕ
  pub value : ℤ

-- What has been asked of the builder of a virtual device, and so what the built device announces.
pub record DeviceSetup : Type 0 where
  pub name : String
  pub bustype : ℕ
  pub vendor : ℕ
  pub product : ℕ
  pub version : ℕ
  pub keys : List ℕ
  pub rel_axes : List ℕ
  pub abs_axes : List AbsSetup

-- A virtual device: its setup, and the batches of events that the kernel took from it, oldest first.
pub record VirtualDevice : Type 0 where
  pub setup : DeviceSetup
  pub emitted : List (List InputEvent)

-- The answers of uinput during one call, each of which may be an error.
pub record Uinput : Type 0 where
  pub open_builder : Result (Unit {0})
  pub with_keys : List ℕ → Result (Unit {0})
  pub with_relative_axes : List ℕ → Result (Unit {0})
  pub with_absolute_axis : AbsSetup → Result (Unit {0})
  pub build : DeviceSetup → Result (Unit {0})
  pub emit : List InputEvent → Result (Unit {0})

pub record VirtualOutput : Type 0 where
  pub name : String
  pub device : VirtualDevice

-- `insert` of an attribute set
unfoldable pub set_insert : List ℕ → ℕ → List ℕ
set_insert set code = if has set code then set else append set (code ∷ [])

-- `for &k in &meta.keys { key_set.insert(..) }`; the codes are in the range of the set
unfoldable pub insert_all : List ℕ → List ℕ → List ℕ
unfolding set_insert
insert_all set [] = set
insert_all set (k ∷ keys) = insert_all (set_insert set k) keys

pub abs_setup : AbsAxisWire → AbsSetup
abs_setup abs = record {
  code = abs.code;
  info = record {
    value = abs.value;
    minimum = abs.minimum;
    maximum = abs.maximum;
    fuzz = abs.fuzz;
    flat = abs.flat;
    resolution = abs.resolution;
  };
}

-- the loop over `meta.abs_axes`
unfoldable pub add_abs_axes : Uinput → List AbsAxisWire → DeviceSetup → Result DeviceSetup
unfolding abs_setup
add_abs_axes io [] setup = ok setup
add_abs_axes io (abs ∷ axes) setup = do
  with_context (io.with_absolute_axis (abs_setup abs)) "Failed to setup absolute axis"
  add_abs_axes io axes (record setup { abs_axes = append setup.abs_axes (abs_setup abs ∷ []) })

add_keys : Uinput → DeviceMetadata → DeviceSetup → Result DeviceSetup
add_keys io meta setup =
    let key_set = insert_all [] meta.keys in
    if is_empty meta.keys
    then ok setup
    else (with_context (io.with_keys key_set) "Failed to set keys"
        >> ok (record setup { keys = key_set }))

add_rel_axes : Uinput → DeviceMetadata → DeviceSetup → Result DeviceSetup
add_rel_axes io meta setup =
    let rel_set = insert_all [] meta.rel_axes in
    if is_empty meta.rel_axes
    then ok setup
    else (with_context (io.with_relative_axes rel_set) "Failed to set relative axes"
        >> ok (record setup { rel_axes = rel_set }))

open_error : Result (Unit {0}) → Result (Unit {0})
open_error (ok u) = ok u
open_error (err e) = err (
    "Failed to open /dev/uinput (" ++ e
    ++ "). Run 'sudo joycast server' or add your user to the 'input' group with uinput udev rules enabled.")

-- `VirtualOutput::new_with_name`
unfoldable pub new_with_name : Uinput → DeviceMetadata → String → Result VirtualOutput
unfolding open_error add_keys add_rel_axes
new_with_name io meta dev_name = do
  open_error io.open_builder
  with_key ← add_keys io meta (record {
    name = dev_name;
    bustype = meta.bustype;
    vendor = meta.vendor;
    product = meta.product;
    version = meta.version;
    keys = [];
    rel_axes = [];
    abs_axes = [];
  })
  with_rel ← add_rel_axes io meta with_key
  setup ← add_abs_axes io meta.abs_axes with_rel
  with_context (io.build setup)
      "Failed to build virtual uinput device (check uinput permissions or run with sudo)"
  ok (record { name = dev_name; device = record { setup = setup; emitted = [] } })

-- `VirtualOutput::new`
unfoldable pub new : Uinput → DeviceMetadata → Result VirtualOutput
unfolding new_with_name
new io meta = new_with_name io meta (meta.name ++ ": (Joycast)")

abbrev pub input_event : EventWire → InputEvent
input_event e = record { type_ = e.type_; code = e.code; value = e.value }

-- `VirtualOutput::emit`
unfoldable pub emit : Uinput → VirtualOutput → List EventWire → Result (Unit {0}) × VirtualOutput
emit io out events =
    let evdev_events = map input_event events in
    if is_empty evdev_events then (ok tt, out) else elim (io.emit evdev_events) [
      | err e ↦ (err "Failed to emit events to virtual uinput device", out)
      | ok u ↦ (
        ok tt,
        record out {
          device = record out.device { emitted = append out.device.emitted (evdev_events ∷ []) };
        },
      )
    ]
