-- ===== src/Device/Listing.antt =====
-- src/device.rs: the devices that `DeviceScanner` lists, of those that evdev enumerates.
use Prim.Native.Char.{Char}
use joycast.Prelude.{
  String, Bool, true, false, ◌||◌, Option, none, some, List, [], ◌∷◌, if◌then◌else◌, find,
}
use joycast.Prelude.Text.{to_lowercase, contains}
use joycast.Prelude.Sort.{sort_by}
use joycast.Device.{
  DeviceType, gamepad, joystick, keyboard, mouse, other, DeviceInfo, Device, KeyCodes, unwrap_or,
  classify_device,
}

-- `unicode` lowers the characters beyond ASCII.
module _ (unicode : Char → String) where
  -- `DeviceScanner::is_noise_device`
  unfoldable pub is_noise_device : String → Bool
  unfolding to_lowercase contains
  is_noise_device name =
      let n = to_lowercase unicode name in
      contains n "motion sensors"
      || contains n "system control"
      || contains n "consumer control"
      || contains n "hdmi"
      || contains n "pcm="
      || contains n "headphone"
      || contains n "video bus"
      || contains n "lid switch"
      || contains n "power button"
      || contains n "sleep button"
      || contains n "pc speaker"
      || contains n "hotkeys"
      || contains n "button array"
      || contains n "privacy driver"
      || contains n "wireless controller touchpad"

-- the inner `match` of `list_devices_filtered`
unfoldable pub is_included : Bool → Bool → DeviceType → Bool
is_included include_keyboard include_mouse gamepad = true
is_included include_keyboard include_mouse joystick = true
is_included include_keyboard include_mouse keyboard = include_keyboard
is_included include_keyboard include_mouse mouse = include_mouse
is_included include_keyboard include_mouse other = false

unfoldable pub is_other : DeviceType → Bool
is_other other = true
is_other _ = false

-- the test of `find_first_gamepad`
unfoldable pub is_controller : DeviceInfo → Bool
is_controller d = elim d.device_type [ gamepad ↦ true | joystick ↦ true | _ ↦ false ]

module _ (codes : KeyCodes) (unicode : Char → String) where
  unfoldable pub device_info : String × Device → DeviceInfo
  device_info (path, device) = record {
    path = path;
    name = unwrap_or device.name "Unknown Device";
    device_type = classify_device codes device;
    vendor = device.vendor;
    product = device.product;
  }

  -- whether the loop of `list_devices_filtered` gets past its `continue`s
  unfoldable pub is_listed : Bool → Bool → Bool → DeviceInfo → Bool
  unfolding is_included is_other
  is_listed include_keyboard include_mouse include_all info =
      if include_all
      then true
      else if is_other info.device_type || is_noise_device unicode info.name
      then false
      else is_included include_keyboard include_mouse info.device_type

  -- the loop: `devices` is what evdev enumerates
  unfoldable pub collect_devices : Bool → Bool → Bool → List (String × Device) → List DeviceInfo
  unfolding device_info is_listed
  collect_devices include_keyboard include_mouse include_all [] = []
  collect_devices include_keyboard include_mouse include_all (found ∷ devices) =
      let rest = collect_devices include_keyboard include_mouse include_all devices in
      if is_listed include_keyboard include_mouse include_all (device_info found)
      then device_info found ∷ rest
      else rest

  -- `DeviceScanner::list_devices_filtered`
  unfoldable pub list_devices_filtered :
      Bool → Bool → Bool → List (String × Device) → List DeviceInfo
  unfolding collect_devices
  list_devices_filtered include_keyboard include_mouse include_all devices =
      sort_by (λ d. d.path) (collect_devices include_keyboard include_mouse include_all devices)

  -- `DeviceScanner::list_devices`
  unfoldable pub list_devices : List (String × Device) → List DeviceInfo
  list_devices = list_devices_filtered false false false

  -- `DeviceScanner::find_first_gamepad`
  unfoldable pub find_first_gamepad : List (String × Device) → Option String
  unfolding is_controller list_devices
  find_first_gamepad devices = elim (find is_controller (list_devices devices)) [
    | none ↦ none
    | some d ↦ some d.path
  ]
