-- ===== src/Examples/Commands.antt =====
-- The command line: `deck` is approved, and the server that starts then knows it.
use joycast.Prelude.{◌≡◌, refl, true, false, none, some, sym, subst}
use joycast.Prelude.Outcome.{ok}
use joycast.Prelude.Map.{string_eq, ◌==◌, find_key, insert, remove, get, contains_key}
use joycast.Prelude.{find}
use joycast.Prelude.Files.{FileSystem, exists, read_to_string, write, set_content}
use joycast.Trust as Trust
use joycast.Trust.{
  TrustManager, is_approved, is_root_context, store_file, approve_match, reload, save,
  move_approved,
}
use joycast.Trust.Commands.{approve, approve_loaded, match_id}
use joycast.Trust.Disk.{current, stored}
use joycast.Trust.Consistency.{IsConsistent}
use joycast.Server.Key.{
  target_path, load_or_create_secret_key, find_or_create, first_key, key_at, candidates,
  user_candidate, sudo_candidate,
}
use joycast.Server.Start.{addr_of, bind, bind_socket, bind_endpoint, manager_of}
use joycast.CommandLine.{
  Machine, authorized, serving, main, run_server, start_server, server, approving,
}
use joycast.CommandLine.Frame.{own_file, is_own, main-is_own}
use joycast.CommandLine.Approval.{approve_command, start_command, approve_command-start_command}
use joycast.Examples.{in_order}
use joycast.Examples.Client as Sample
use joycast.Examples.Devices.{codes, none_lower}
use joycast.Examples.Json.{json, deck_ok, waiting, encode, decode}
use joycast.Examples.Keys as Keys
use joycast.Examples.Operation.{files}
use joycast.Examples.Starting.{here, around}
use joycast.Examples.Trust.{waiting-IsConsistent}
use joycast.Examples.Units.{system}

abbrev machine : Machine
machine = record {
  env = here;
  utc = "2026-01-02";
  network = Keys.network;
  new_key = Keys.key;
  surroundings = around "c0ffee";
  system = system;
}

granted :
    (approve_command json Sample.json Keys.hex in_order Sample.addresses codes none_lower
      (λ s. none)
      machine
      "c0f"
      files).0
    ≡ ok (authorized deck_ok)
unfolding main run_server Trust.new store_file approve approve_loaded approve_match reload exists
    read_to_string save write set_content match_id contains_key get decode encode find_key find
    insert remove
granted = refl

abbrev between : FileSystem
between =
    (approve_command json Sample.json Keys.hex in_order Sample.addresses codes none_lower
      (λ s. none) machine "c0f" files).1

started :
    (start_command json Sample.json Keys.hex in_order Sample.addresses codes none_lower
      (λ s. none)
      machine
      none
      none
      none
      false
      false
      between).0
    ≡ ok (serving (Keys.up (Trust.new json here between none)))
unfolding main run_server start_server bind bind_socket bind_endpoint addr_of manager_of
    load_or_create_secret_key find_or_create first_key candidates user_candidate sudo_candidate
    key_at Trust.new store_file approve approve_loaded approve_match reload exists read_to_string
    save write set_content match_id contains_key get decode encode find_key find insert remove
started = refl

holds_waiting : current json files (Trust.new json here files none) ≡ waiting
unfolding current stored Trust.new store_file read_to_string decode
holds_waiting = refl

sound : IsConsistent (current json files (Trust.new json here files none))
sound = subst IsConsistent (sym holds_waiting) waiting-IsConsistent

can_read : (files (Trust.new json here files none).store_path).readable ≡ true
unfolding Trust.new store_file
can_read = refl

same_path :
    (Trust.new json here between none).store_path ≡ (Trust.new json here files none).store_path
unfolding main run_server Trust.new store_file is_root_context approve approve_loaded approve_match
    reload exists read_to_string save write set_content match_id contains_key get decode encode
    find_key find insert remove
same_path = refl

apart : target_path here between == (Trust.new json here files none).store_path ≡ false
unfolding main run_server Trust.new store_file is_root_context approve approve_loaded approve_match
    reload exists read_to_string save write set_content match_id contains_key get decode encode
    find_key find insert remove target_path
apart = refl

approve_command-start_command_example :
    (is_approved json "c0ffee"
      (start_command json Sample.json Keys.hex in_order Sample.addresses codes none_lower
        (λ s. none)
        machine
        none
        none
        none
        false
        false
        between).1
      (Trust.new json here between none)).0
    ≡ true
approve_command-start_command_example =
    approve_command-start_command json Sample.json Keys.hex in_order Sample.addresses codes
      none_lower (λ s. none) machine machine "c0f" none none none false false files deck_ok
      (Keys.up (Trust.new json here between none)) can_read sound same_path apart granted started

not_own :
    is_own
      (own_file json Sample.json Keys.hex in_order Sample.addresses codes none_lower
        (λ s. none)
        machine
        (server (some (approving "c0f")) none none none false false)
        files)
      "/etc/joycast/server.key"
    ≡ false
unfolding own_file Trust.new store_file
not_own = refl

main-is_own_example : between "/etc/joycast/server.key" ≡ files "/etc/joycast/server.key"
main-is_own_example =
    main-is_own json Sample.json Keys.hex in_order Sample.addresses codes none_lower (λ s. none)
      machine (server (some (approving "c0f")) none none none false false) files
      "/etc/joycast/server.key" not_own
