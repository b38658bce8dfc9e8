-- ===== src/Examples/Devices.antt =====
-- Device classification and the virtual device on concrete devices.
use Prim.Native.Char.{Char}
use joycast.Prelude.{String, none, some, [], ◌∷◌}
use joycast.Prelude.Outcome.{ok}
use joycast.Prelude.Int.{pos}
use joycast.Device.{AbsInfo, Device, KeyCodes}
use joycast.Device.Output.{Uinput}

-- the kernel's numbers
abbrev pub codes : KeyCodes
codes = record {
  btn_south = 304;
  btn_east = 305;
  btn_north = 307;
  btn_west = 308;
  btn_tl = 310;
  btn_tr = 311;
  btn_select = 314;
  btn_start = 315;
  btn_mode = 316;
  btn_thumbl = 317;
  btn_thumbr = 318;
  btn_trigger = 288;
  btn_thumb = 289;
  key_a = 30;
  key_enter = 28;
  btn_left = 272;
  btn_right = 273;
}

abbrev pub none_lower : Char → String
none_lower c = ""

abbrev stick : AbsInfo
stick = record {
  value = pos 0;
  minimum = pos 0;
  maximum = pos 255;
  fuzz = pos 0;
  flat = pos 15;
  resolution = pos 0;
}

abbrev pub pad : Device
pad = record {
  name = some "Pad";
  bus_type = 3;
  vendor = 1356;
  product = 2508;
  version = 1;
  supported_keys = some (304 ∷ 305 ∷ []);
  supported_absolute_axes = some (0 ∷ 1 ∷ []);
  supported_relative_axes = none;
  abs_state = ok (stick ∷ stick ∷ stick ∷ []);
}

-- uinput that takes everything
abbrev pub willing : Uinput
willing = record {
  open_builder = ok tt;
  with_keys = λ k. ok tt;
  with_relative_axes = λ r. ok tt;
  with_absolute_axis = λ a. ok tt;
  build = λ s. ok tt;
  emit = λ e. ok tt;
}
