-- ===== src/Device/Scan.antt =====
-- Which devices `list_devices_filtered` offers, and in which order.
use mathlib.Core.List.{Perm, map, head?}
use mathlib.Core.Option
use Prim.Native.Char.{Char}
use joycast.Prelude.{
  String, ◌≡◌, refl, Bool, true, false, ◌||◌, List, [], ◌∷◌, arith, retain, find, ◌↔◌,
}
use joycast.Prelude.Sort.{IsSorted, sort_by-perm, sort_by-IsSorted, AllPass, sort_by-AllPass}
use joycast.Device.{
  gamepad, joystick, mouse, DeviceInfo, Device, KeyCodes, is_some, is_some_and, has_gamepad_btn,
  has_joystick_btn, has_mouse_btn, classify_device,
}
use joycast.Device.Listing.{
  device_info, is_listed, collect_devices, list_devices_filtered, list_devices, find_first_gamepad,
  is_controller,
}

-- A device is a gamepad exactly when it has a gamepad button; a joystick exactly when it has none
-- of these and a joystick button; a mouse exactly when it has none of both, and both mouse buttons
-- or a relative axis; absolute axes never matter.
pub classify_device_iff :
    (codes : KeyCodes) (d : Device)
    → let g = is_some_and d.supported_keys (has_gamepad_btn codes) in
      let j = is_some_and d.supported_keys (has_joystick_btn codes) in
      let m =
        is_some_and d.supported_keys (has_mouse_btn codes) || is_some d.supported_relative_axes in
      ((classify_device codes d ≡ gamepad) ↔ (g ≡ true))
      × ((classify_device codes d ≡ joystick) ↔ ((g ≡ false) × (j ≡ true)))
      × ((classify_device codes d ≡ mouse) ↔ ((g ≡ false) × (j ≡ false) × (m ≡ true)))
unfolding classify_device
classify_device_iff codes d = ground arith

module _ (codes : KeyCodes) (unicode : Char → String) where
  collect_devices_lem :
      (k m a : Bool) (devices : List (String × Device))
      → collect_devices codes unicode k m a devices
        ≡ retain (is_listed codes unicode k m a) (map (device_info codes unicode) devices)
  unfolding collect_devices retain
  collect_devices_lem k m a [] = refl
  collect_devices_lem k m a (d ∷ ds) = rw (collect_devices_lem k m a ds)

  -- The list is sorted by path and holds, once for each enumerated device, those that pass the
  -- filter.
  pub list_devices_filtered_lem :
      (k m a : Bool) (devices : List (String × Device))
      → IsSorted (λ d. d.path) (list_devices_filtered codes unicode k m a devices)
        × Perm
            (list_devices_filtered codes unicode k m a devices)
            (retain (is_listed codes unicode k m a) (map (device_info codes unicode) devices))
  unfolding list_devices_filtered
  list_devices_filtered_lem k m a devices =
      rw (← collect_devices_lem k m a devices) (sort_by-IsSorted _ _, sort_by-perm _ _)

  collect_devices-AllPass :
      (devices : List (String × Device))
      → AllPass is_controller (collect_devices codes unicode false false false devices)
  unfolding collect_devices is_controller
  collect_devices-AllPass [] = tt
  collect_devices-AllPass (d ∷ ds) = ground (arith, collect_devices-AllPass ds)

  find-head : (xs : List DeviceInfo) → AllPass is_controller xs → find is_controller xs ≡ head? xs
  unfolding find
  find-head [] a = refl
  find-head (x ∷ xs) a = rw a.0

  -- The default list holds gamepads and joysticks only, so the first of them is its first entry.
  pub find_first_gamepad_lem :
      (devices : List (String × Device))
      → AllPass is_controller (list_devices codes unicode devices)
        × (find_first_gamepad codes unicode devices
            ≡ Option.map (λ (d : DeviceInfo). d.path) (head? (list_devices codes unicode devices)))
  unfolding list_devices list_devices_filtered find_first_gamepad
  find_first_gamepad_lem devices =
      let all =
        sort_by-AllPass (λ (d : DeviceInfo). d.path) is_controller _
          (collect_devices-AllPass devices) in
      (all, ground (arith, find-head _ all))
