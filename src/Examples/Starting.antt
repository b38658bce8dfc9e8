-- ===== src/Examples/Starting.antt =====
-- The client, the server and the command line from their start.
use joycast.Prelude.{String, ◌≡◌, refl, true, false, none, some}
use joycast.Prelude.Outcome.{ok, err}
use joycast.Prelude.Map.{string_eq}
use joycast.Prelude.Text.{trim}
use joycast.Prelude.Files.{FileSystem, exists, read_to_string, write, set_content}
use joycast.Trust.{Environment}
use joycast.Transport.{iroh, from_str}
use joycast.Device.{classify_device, has_gamepad_btn, has}
use joycast.Device.Listing.{list_devices_filtered, is_noise_device}
use joycast.Prelude.Sort.{sort_by}
use joycast.Client.{resolve_target, resolve_specified, select_device, load_or_create_client_id}
use joycast.Client.Start.{
  ClientConfig, JoycastClient, Surroundings, joycast_file, choose_device, new,
}
use joycast.Client.Start.Identity.{new_stable}
use joycast.Examples.{only}
use joycast.Examples.Client as Sample
use joycast.Examples.Devices.{codes, none_lower}
use joycast.Examples.Forwarding.{back}

abbrev pub here : Environment
here = record {
  user = some "ada";
  sudo_user = none;
  journal_stream = none;
  systemd_exec_pid = none;
  config_dir = none;
}

-- to the Iroh node `ab`, with whatever controller is there
abbrev pub to_ab : ClientConfig
to_ab = record {
  target = some "ab";
  device_path = none;
  keyboard = false;
  mouse = false;
  all = false;
  history_file = none;
  client_id_file = none;
}

abbrev pub around : String → Surroundings
around id = record {
  devices = back;
  server_line = err "eof";
  device_line = err "eof";
  generated = id;
}

abbrev player : String → JoycastClient
player id = record {
  target = iroh 171;
  target_raw = "ab";
  device_selection = record {
    requested_path = some "/dev/input/event4";
    keyboard = false;
    mouse = false;
    all = false;
  };
  client_id = id;
  history_file = none;
}

abbrev nothing_there : FileSystem
nothing_there = only "/x" ""

begun :
    (new Sample.json Sample.addresses codes none_lower
      (λ s. none)
      to_ab
      here
      (around "c0ffee")
      nothing_there).0
    ≡ ok (player "c0ffee")
unfolding new resolve_target resolve_specified from_str trim choose_device select_device
    list_devices_filtered sort_by classify_device has_gamepad_btn has is_noise_device
    load_or_create_client_id joycast_file
begun = refl

-- the files that the first start leaves
abbrev id_there : FileSystem
id_there =
    (new Sample.json Sample.addresses codes none_lower (λ s. none) to_ab here (around "c0ffee")
      nothing_there).1

begun_again :
    (new Sample.json Sample.addresses codes none_lower
      (λ s. none)
      to_ab
      here
      (around "beef")
      id_there).0
    ≡ ok (player "c0ffee")
unfolding new resolve_target resolve_specified from_str trim choose_device select_device
    list_devices_filtered sort_by classify_device has_gamepad_btn has is_noise_device
    load_or_create_client_id joycast_file exists read_to_string write set_content
begun_again = refl

tight : trim "c0ffee" ≡ "c0ffee"
unfolding trim
tight = refl

readable : (nothing_there (joycast_file here "client_id" none)).readable ≡ true
unfolding joycast_file
readable = refl

writable : (nothing_there (joycast_file here "client_id" none)).writable ≡ true
unfolding joycast_file
writable = refl

new_stable_example : Path String "c0ffee" "c0ffee"
new_stable_example =
    new_stable Sample.json Sample.addresses codes none_lower (λ s. none) to_ab to_ab here
      (around "c0ffee") (around "beef") nothing_there (player "c0ffee") (player "c0ffee") readable
      writable tight refl refl begun begun_again
