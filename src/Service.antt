-- ===== src/Service.antt =====
-- src/service.rs: the systemd unit of the server. What a method asks of the system is a list of
-- requests, in order, beside its result; the answers are given.
pub mod Commands
pub mod Unit
use Prim.Native.String.{◌++◌}
use mathlib.Core.List.{◌++◌ as append}
use joycast.Prelude.{
  String, Bool, true, false, ◌||◌, not, Option, none, some, List, [], ◌∷◌, if◌then◌else◌,
}
use joycast.Prelude.Outcome.{Result, ok, err, with_context}
use joycast.Prelude.Map.{string_eq, ◌==◌}
use joycast.Prelude.Files.{FileSystem, exists, write}
use joycast.Trust.{Environment}

pub record ServiceManager : Type 0 where
  pub is_user : Bool

abbrev is_ok : Option String → Bool
is_ok none = false
is_ok (some v) = true

abbrev or_default : Option String → String
or_default none = ""
or_default (some v) = v

-- `ServiceManager::is_root`
unfoldable pub is_root : Environment → Bool
is_root env = or_default env.user == "root" || is_ok env.sudo_user || is_ok env.journal_stream

-- `ServiceManager::new`
unfoldable pub service_manager : Environment → Bool → ServiceManager
service_manager env user_mode = record { is_user = if user_mode then true else not (is_root env) }

-- `unit_path`, by the home directory
unfoldable pub unit_path : Option String → ServiceManager → Result String
unit_path home sm =
    if sm.is_user
    then elim home [
      | none ↦ err "Could not determine home directory"
      | some dir ↦ ok (dir ++ "/.config/systemd/user/joycast.service")
    ]
    else ok "/etc/systemd/system/joycast.service"

-- `generate_unit_content`
unfoldable pub generate_unit_content : String → ServiceManager → String
generate_unit_content exec_str sm =
    if sm.is_user
    then ("[Unit]\nDescription=Joycast Gamepad Server Daemon\nAfter=network.target\n\n[Service]\nType=simple\nExecStart="
        ++ exec_str
        ++ " server\nRestart=on-failure\nRestartSec=5\n\n[Install]\nWantedBy=default.target\n")
    else ("[Unit]\nDescription=Joycast Gamepad Server Daemon\nAfter=network.target\n\n[Service]\nType=simple\nExecStart="
        ++ exec_str
        ++ " server\nRestart=on-failure\nRestartSec=5\nUser=root\nSupplementaryGroups=input\n\n[Install]\nWantedBy=multi-user.target\n")

pub data Request : Type 0 where
  -- a program with its arguments
  run : String → List String → Request
  create_dir_all remove_file : String → Request
  write_file : (path content : String) → Request

-- The answers of the system; a program may fail to start, or end with a status.
pub record System : Type 0 where
  pub home : Option String
  pub current_exe : Result String
  pub status : String → List String → Result Bool
  pub create_dir_all : String → Result (Unit {0})
  pub write_file : String → String → Result (Unit {0})
  pub remove_file : String → Result (Unit {0})
  pub exists : String → Bool
  -- `Path::parent`
  pub parent : String → Option String

-- `args.join(" ")`
unfoldable pub join : List String → String
join [] = ""
join (a ∷ []) = a
join (a ∷ args) = a ++ " " ++ join args

abbrev pub user_flag : ServiceManager → List String
user_flag sm = if sm.is_user then "--user" ∷ [] else []

-- `run_systemctl`
unfoldable pub run_systemctl :
    System → ServiceManager → List String → Result (Unit {0}) × List Request
run_systemctl sys sm args =
    let all = append (user_flag sm) args in
    let asked = run "systemctl" all ∷ [] in
    elim (with_context (sys.status "systemctl" all)
      ("Failed to execute 'systemctl " ++ join args ++ "'")) [
        | err e ↦ (err e, asked)
        | ok success ↦
            if success
            then (ok tt, asked)
            else (err ("Command 'systemctl " ++ join args ++ "' failed"), asked)
      ]

-- the part of `install` from the writing of the file on
unfoldable pub install_file :
    System → ServiceManager → (path content : String) → Result (Unit {0}) × List Request
install_file sys sm path content =
    elim (with_context (sys.write_file path content) ("Failed to write service file to " ++ path)) [
      | err e ↦ (err e, write_file path content ∷ [])
      | ok u ↦ (
        ok tt,
        write_file path content
            ∷ append (run_systemctl sys sm ("daemon-reload" ∷ [])).1
                (run_systemctl sys sm ("enable" ∷ "joycast" ∷ [])).1,
      )
    ]

-- the part from the creation of the directory on
unfoldable pub install_at :
    System → ServiceManager → (path content : String) → Result (Unit {0}) × List Request
install_at sys sm path content = elim (sys.parent path) [
  | none ↦ install_file sys sm path content
  | some dir ↦ elim (with_context (sys.create_dir_all dir) ("Failed to create directory " ++ dir)) [
    | err e ↦ (err e, create_dir_all dir ∷ [])
    | ok u ↦ let (r, asked) = install_file sys sm path content in (r, create_dir_all dir ∷ asked)
  ]
]

-- `install`
unfoldable pub install : System → ServiceManager → Result (Unit {0}) × List Request
install sys sm = elim (with_context sys.current_exe "Failed to determine current executable path") [
  | err e ↦ (err e, [])
  | ok exec_path ↦ elim (unit_path sys.home sm) [
    | err e ↦ (err e, [])
    | ok path ↦ install_at sys sm path (generate_unit_content exec_path sm)
  ]
]

-- the removal in `uninstall`
unfoldable pub remove_unit : System → String → Result (Unit {0}) × List Request
remove_unit sys path =
    if sys.exists path
    then (with_context (sys.remove_file path) ("Failed to remove " ++ path), remove_file path ∷ [])
    else (ok tt, [])

-- `uninstall`
unfoldable pub uninstall : System → ServiceManager → Result (Unit {0}) × List Request
uninstall sys sm = elim (unit_path sys.home sm) [
  | err e ↦ (err e, [])
  | ok path ↦
      let before =
        append (run_systemctl sys sm ("stop" ∷ "joycast" ∷ [])).1
          (run_systemctl sys sm ("disable" ∷ "joycast" ∷ [])).1 in
      let (r, removed) = remove_unit sys path in
      elim r [
        | err e ↦ (err e, append before removed)
        | ok u ↦
            (ok tt, append before (append removed (run_systemctl sys sm ("daemon-reload" ∷ [])).1))
      ]
]

-- `start`, `stop`, `restart`
unfoldable pub control : System → ServiceManager → String → Result (Unit {0}) × List Request
control sys sm verb = run_systemctl sys sm (verb ∷ "joycast" ∷ [])

-- `status`: the answer is dropped
unfoldable pub status_of : ServiceManager → List Request
status_of sm = run "systemctl" (append (user_flag sm) ("status" ∷ "joycast" ∷ [])) ∷ []

-- `logs`
unfoldable pub logs : ServiceManager → List Request
logs sm = run "journalctl" (append (user_flag sm) ("-u" ∷ "joycast" ∷ "-f" ∷ [])) ∷ []

-- The answers about files that come from the files themselves.
abbrev pub on_files : FileSystem → System → System
on_files fs sys = record sys {
  write_file = λ path content. (write fs path content).0;
  exists = exists fs;
}

-- `fs::remove_file`
unfoldable pub remove_content : FileSystem → String → FileSystem
remove_content fs path p = if path == p then record (fs p) { content = none } else fs p

-- what a request leaves of the files; what a program does is left out
unfoldable pub perform : System → Request → FileSystem → FileSystem
perform sys (write_file path content) fs = (write fs path content).1
perform sys (remove_file path) fs = elim (sys.remove_file path) [
  | ok u ↦ remove_content fs path
  | err e ↦ fs
]
perform sys _ fs = fs

unfoldable pub perform_all : System → List Request → FileSystem → FileSystem
perform_all sys [] fs = fs
perform_all sys (request ∷ rest) fs = perform_all sys rest (perform sys request fs)
