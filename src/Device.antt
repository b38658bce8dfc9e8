-- ===== src/Device.antt =====
-- src/device.rs: which input devices are offered, what is read of a physical device, and the
-- virtual device that replays its events. The kernel's side (the crate evdev) is given by what it
-- returns: the opened devices, and the answers of uinput.
pub mod Listing
pub mod Scan
pub mod Output
use Prim.Native.Char.{Char}
use Prim.Native.String.{◌++◌}
use joycast.Prelude.{
  ℕ, suc, ◌%◌, String, Bool, true, false, ◌&&◌, ◌||◌, Option, none, some, List, [], ◌∷◌,
  if◌then◌else◌, eqb, find,
}
use joycast.Prelude.Int.{ℤ}
use joycast.Prelude.Text.{to_lowercase, contains}
use joycast.Prelude.Outcome.{Result, ok, err}
use joycast.Prelude.Sort.{sort_by}
use joycast.Protocol.{AbsAxisWire, DeviceMetadata}

pub data DeviceType : Type 0 where
  gamepad joystick keyboard mouse other : DeviceType

-- `Display` of `DeviceType`
unfoldable pub display_type : DeviceType → String
display_type gamepad = "Gamepad"
display_type joystick = "Joystick"
display_type keyboard = "Keyboard"
display_type mouse = "Mouse"
display_type other = "Other"

pub record DeviceInfo : Type 0 where
  pub path : String
  pub name : String
  pub device_type : DeviceType
  pub vendor : ℕ
  pub product : ℕ

-- `evdev::AbsInfo`
pub record AbsInfo : Type 0 where
  pub value : ℤ
  pub minimum : ℤ
  pub maximum : ℤ
  pub fuzz : ℤ
  pub flat : ℤ
  pub resolution : ℤ

-- `evdev::Device`, by what its methods return; an attribute set is the list that its `iter` gives
pub record Device : Type 0 where
  pub name : Option String
  pub bus_type : ℕ
  pub vendor : ℕ
  pub product : ℕ
  pub version : ℕ
  pub supported_keys : Option (List ℕ)
  pub supported_absolute_axes : Option (List ℕ)
  pub supported_relative_axes : Option (List ℕ)
  pub abs_state : Result (List AbsInfo)

abbrev pub unwrap_or : Option String → String → String
unwrap_or none d = d
unwrap_or (some s) d = s

-- `contains` of an attribute set
unfoldable pub has : List ℕ → ℕ → Bool
has [] code = false
has (c ∷ set) code = eqb c code || has set code

-- `is_some_and` and `is_some`
abbrev pub is_some_and {ℓ} : {A : Type ℓ} → Option A → (A → Bool) → Bool
is_some_and none p = false
is_some_and (some a) p = p a

abbrev pub is_some {ℓ} : {A : Type ℓ} → Option A → Bool
is_some none = false
is_some (some a) = true

-- The numbers that evdev's `KeyCode` gives to the keys and buttons that the source names.
pub record KeyCodes : Type 0 where
  pub btn_south : ℕ
  pub btn_east : ℕ
  pub btn_north : ℕ
  pub btn_west : ℕ
  pub btn_tl : ℕ
  pub btn_tr : ℕ
  pub btn_select : ℕ
  pub btn_start : ℕ
  pub btn_mode : ℕ
  pub btn_thumbl : ℕ
  pub btn_thumbr : ℕ
  pub btn_trigger : ℕ
  pub btn_thumb : ℕ
  pub key_a : ℕ
  pub key_enter : ℕ
  pub btn_left : ℕ
  pub btn_right : ℕ

module _ (codes : KeyCodes) where
  -- the tests of `classify_device` on the supported keys
  unfoldable pub has_gamepad_btn : List ℕ → Bool
  has_gamepad_btn k =
      has k codes.btn_south
      || has k codes.btn_east
      || has k codes.btn_north
      || has k codes.btn_west
      || has k codes.btn_tl
      || has k codes.btn_tr
      || has k codes.btn_select
      || has k codes.btn_start
      || has k codes.btn_mode
      || has k codes.btn_thumbl
      || has k codes.btn_thumbr

  unfoldable pub has_joystick_btn : List ℕ → Bool
  has_joystick_btn k = has k codes.btn_trigger || has k codes.btn_thumb

  unfoldable pub has_keyboard_keys : List ℕ → Bool
  has_keyboard_keys k = has k codes.key_a && has k codes.key_enter

  unfoldable pub has_mouse_btn : List ℕ → Bool
  has_mouse_btn k = has k codes.btn_left && has k codes.btn_right

  -- `DeviceScanner::classify_device`
  unfoldable pub classify_device : Device → DeviceType
  classify_device device =
      let keys = device.supported_keys in
      let gamepad_btn = is_some_and keys has_gamepad_btn in
      let joystick_btn = is_some_and keys has_joystick_btn in
      let keyboard_keys = is_some_and keys has_keyboard_keys in
      let mouse_btn = is_some_and keys has_mouse_btn in
      if gamepad_btn
      then gamepad
      else if joystick_btn || is_some device.supported_absolute_axes && gamepad_btn
      then joystick
      else if mouse_btn || is_some device.supported_relative_axes
      then mouse
      else if keyboard_keys
      then keyboard
      else other

-- the axes of `abs_infos` from number `code` on that the device supports; `code as u16`
unfoldable pub abs_axes : List ℕ → ℕ → List AbsInfo → List AbsAxisWire
unfolding has
abs_axes supported code [] = []
abs_axes supported code (info ∷ infos) =
    let rest = abs_axes supported (suc code) infos in
    if has supported (code % 65536)
    then record {
      code = code % 65536;
      value = info.value;
      minimum = info.minimum;
      maximum = info.maximum;
      fuzz = info.fuzz;
      flat = info.flat;
      resolution = info.resolution;
    }
      ∷ rest
    else rest

abbrev or_empty : Option (List ℕ) → List ℕ
or_empty none = []
or_empty (some codes) = codes

abs_axes_of : Option (List ℕ) → Result (List AbsInfo) → List AbsAxisWire
unfolding abs_axes
abs_axes_of (some supported) (ok abs_infos) = abs_axes supported 0 abs_infos
abs_axes_of _ _ = []

-- `extract_metadata`
unfoldable pub extract_metadata : Device → DeviceMetadata
unfolding abs_axes_of
extract_metadata device = record {
  name = unwrap_or device.name "Joycast Virtual Device";
  bustype = device.bus_type;
  vendor = device.vendor;
  product = device.product;
  version = device.version;
  keys = or_empty device.supported_keys;
  abs_axes = abs_axes_of device.supported_absolute_axes device.abs_state;
  rel_axes = or_empty device.supported_relative_axes;
}
