-- ===== src/CommandLine/Frame.antt =====
-- Which file each command of src/main.rs may change.
use Prim.Native.Char.{Char}
use joycast.Prelude.{
  ℕ, String, ◌≡◌, refl, Bool, true, false, Option, none, some, List, [], ◌∷◌, arith, inl, inr,
  Option-cases,
}
use joycast.Prelude.Outcome.{ok, err, Codec, Result-cases}
use joycast.Prelude.Map.{Order, string_eq, ◌==◌, get}
use joycast.Prelude.Files.{FileSystem, write, set_content}
use joycast.Trust as Trust
use joycast.Trust.{TrustData, TrustManager, save, reload, approve_match}
use joycast.Trust.Commands.{match_id, approve, approve_loaded, revoke, revoke_loaded}
use joycast.Trust.Disk.{reload_path}
use joycast.Transport.{Addresses}
use joycast.History.{KnownServerInfo}
use joycast.Device.{KeyCodes}
use joycast.Server.Key.{ServerConfig, Hex, target_path, find_or_create, load_or_create_secret_key}
use joycast.Server.Start.{bind, bind_endpoint}
use joycast.Client.{load_or_create_client_id}
use joycast.Client.Start as Clients
use joycast.Client.Start.{joycast_file}
use joycast.Prelude.Sort.{AllPass}
use joycast.Service as Units
use joycast.Service.{unit_path, service_manager, on_files, perform, perform_all}
use joycast.Service.Unit.{
  spares, perform_all_spared, run_systemctl-spares, install-spares, uninstall-spares,
}
use joycast.CommandLine.{
  install, uninstall, start_service, stop, restart, status, check, logs, run, run_service, Commands,
  server, client, list, service, start, pending, approved, approving, revoking, Machine,
  start_server, run_client, run_server, main,
}

abbrev pub is_own : Option String → String → Bool
is_own none p = false
is_own (some path) p = path == p

write_other :
    (fs : FileSystem) (path p text : String) → path == p ≡ false → (write fs path text).1 p ≡ fs p
unfolding write set_content
write_other fs path p text h = ground arith

load_or_create_client_id_other :
    (fs : FileSystem) (path generated p : String)
    → path == p ≡ false
    → (load_or_create_client_id fs path generated).1 p ≡ fs p
unfolding load_or_create_client_id
load_or_create_client_id_other fs path generated p h =
    ground (arith, write_other fs path p generated h)

module _ (hex : Hex) where
  load_or_create_secret_key_other :
      (config : ServerConfig) (env : Trust.Environment) (fs : FileSystem) (generated : List ℕ)
      (p : String)
      → target_path env fs == p ≡ false
      → (load_or_create_secret_key hex config env fs generated).1 p ≡ fs p
  unfolding load_or_create_secret_key find_or_create
  load_or_create_secret_key_other config env fs generated p h =
      ground (arith, write_other fs (target_path env fs) p (hex.encode generated) h)

module _ (json : Codec TrustData String) (order : Order) where
  save_other :
      (fs : FileSystem) (path p : String) (d : TrustData)
      → path == p ≡ false
      → (save json fs path d).1 p ≡ fs p
  unfolding save
  save_other fs path p d h = elim (Result-cases (json.encode d)) [
    | inl (text, e) ↦ rw (e, save) (write_other fs path p text h)
    | inr (x, e) ↦ rw (e, save) refl
  ]

  approve_match_other :
      (id now p : String) (fs : FileSystem) (tm : TrustManager)
      → tm.store_path == p ≡ false
      → (approve_match json id now fs tm).1 p ≡ fs p
  unfolding approve_match
  approve_match_other id now p fs tm h = elim (Option-cases (get tm.memory.pending id)) [
    | inl e ↦ rw (e, approve_match) refl
    | inr (x, e) ↦ rw (e, approve_match) (save_other fs tm.store_path p _ h)
  ]

  approve_other :
      (target now p : String) (fs : FileSystem) (tm : TrustManager)
      → tm.store_path == p ≡ false
      → (approve json order target now fs tm).1 p ≡ fs p
  unfolding approve approve_loaded
  approve_other target now p fs tm h =
      let mine : (reload json fs tm).store_path == p ≡ false = rw (reload_path json fs tm) h in
      elim (Option-cases (match_id order (reload json fs tm).memory.pending target)) [
        | inl e ↦ rw (e, approve_loaded) refl
        | inr (id, e) ↦
            rw (e, approve_loaded) (approve_match_other id now p fs (reload json fs tm) mine)
      ]

  revoke_other :
      (target p : String) (fs : FileSystem) (tm : TrustManager)
      → tm.store_path == p ≡ false
      → (revoke json order target fs tm).1 p ≡ fs p
  unfolding revoke revoke_loaded
  revoke_other target p fs tm h =
      let mine : (reload json fs tm).store_path == p ≡ false = rw (reload_path json fs tm) h in
      elim (Option-cases (match_id order (reload json fs tm).memory.approved target)) [
        | inl e ↦ rw (e, revoke_loaded) refl
        | inr (id, e) ↦
            rw (e, revoke_loaded) (save_other fs (reload json fs tm).store_path p _ mine)
      ]

module _ (trust : Codec TrustData String) (history : Codec (List KnownServerInfo) String)
    (hex : Hex) (order : Order) (addresses : Addresses) (codes : KeyCodes) (unicode : Char → String)
    (parse_usize : String → Option ℕ) (m : Machine) where
  -- the unit of the service
  abbrev pub own_unit : Bool → Option String
  own_unit user = elim (unit_path m.system.home (service_manager m.env user)) [
    | ok path ↦ some path
    | err e ↦ none
  ]

  -- the file of a command: the unit, the trust file, the server's key, or the client's id
  unfoldable pub own_file : Commands → FileSystem → Option String
  own_file (server (some pending) bind_addr secret_key key_file no_udp no_iroh) fs = none
  own_file (server (some approved) bind_addr secret_key key_file no_udp no_iroh) fs = none
  own_file (server (some (approving id)) bind_addr secret_key key_file no_udp no_iroh) fs =
      some (Trust.new trust m.env fs none).store_path
  own_file (server (some (revoking id)) bind_addr secret_key key_file no_udp no_iroh) fs =
      some (Trust.new trust m.env fs none).store_path
  own_file (server _ bind_addr secret_key key_file no_udp no_iroh) fs = some (target_path m.env fs)
  own_file (client target device keyboard mouse all true) fs = none
  own_file (client target device keyboard mouse all false) fs =
      some (joycast_file m.env "client_id" none)
  own_file (list keyboard mouse all) fs = none
  own_file (service install user) fs = own_unit user
  own_file (service uninstall user) fs = own_unit user
  own_file (service subcommand user) fs = none

  bind_other :
      (config : ServerConfig) (fs : FileSystem) (p : String)
      → target_path m.env fs == p ≡ false
      → (bind trust hex m.network config m.env fs m.new_key).1 p ≡ fs p
  unfolding bind bind_endpoint
  bind_other config fs p h =
      ground (arith, load_or_create_secret_key_other hex config m.env fs m.new_key p h)

  new_other :
      (config : Clients.ClientConfig) (fs : FileSystem) (p : String)
      → joycast_file m.env "client_id" config.client_id_file == p ≡ false
      → (Clients.new history addresses codes unicode parse_usize config m.env m.surroundings fs).1 p
        ≡ fs p
  unfolding Clients.new
  new_other config fs p h = ground (
    arith,
    load_or_create_client_id_other fs (joycast_file m.env "client_id" config.client_id_file)
        m.surroundings.generated p h,
  )

  install_spared :
      (user : Bool) (fs : FileSystem) (p : String)
      → is_own (own_unit user) p ≡ false
      → AllPass (spares p) (Units.install (on_files fs m.system) (service_manager m.env user)).1
  unfolding Units.install
  install_spared user fs p h =
      elim (Result-cases (unit_path m.system.home (service_manager m.env user))) [
        | inl (path, e) ↦
            install-spares (on_files fs m.system) p (service_manager m.env user) path (ground arith)
              e
        | inr (x, e) ↦ ground arith
      ]

  uninstall_spared :
      (user : Bool) (fs : FileSystem) (p : String)
      → is_own (own_unit user) p ≡ false
      → AllPass (spares p) (Units.uninstall (on_files fs m.system) (service_manager m.env user)).1
  unfolding Units.uninstall
  uninstall_spared user fs p h =
      elim (Result-cases (unit_path m.system.home (service_manager m.env user))) [
        | inl (path, e) ↦
            uninstall-spares (on_files fs m.system) p (service_manager m.env user) path
              (ground arith) e
        | inr (x, e) ↦ ground arith
      ]

  control_spared :
      (user : Bool) (fs : FileSystem) (p verb : String)
      → AllPass
          (spares p)
          (Units.control (on_files fs m.system) (service_manager m.env user) verb).1
  unfolding Units.control
  control_spared user fs p verb =
      run_systemctl-spares (on_files fs m.system) p (service_manager m.env user)
        (verb ∷ "joycast" ∷ [])

  -- A command of the command line changes no file but its own, whether it succeeds or fails:
  -- `approve` and `revoke` the trust file, the start of the server its key, the start of the client
  -- its id, `install` and `uninstall` the unit of the service; the other commands none. This is up
  -- to the point where the server or the client enters its loops; what systemd changes when it is
  -- run is apart.
  pub main-is_own :
      (c : Commands) (fs : FileSystem) (p : String)
      → is_own (own_file c fs) p ≡ false
      → (main trust history hex order addresses codes unicode parse_usize m c fs).1 p ≡ fs p
  unfolding main own_file run_server start_server run_client run_service perform_all perform
      Units.status_of Units.logs
  main-is_own (server (some pending) b k f u i) fs p h = refl
  main-is_own (server (some approved) b k f u i) fs p h = refl
  main-is_own (server (some (approving id)) b k f u i) fs p h =
      approve_other trust order id m.utc p fs (Trust.new trust m.env fs none) h
  main-is_own (server (some (revoking id)) b k f u i) fs p h =
      revoke_other trust order id p fs (Trust.new trust m.env fs none) h
  main-is_own (server (some start) b k f u i) fs p h = bind_other _ fs p h
  main-is_own (server none b k f u i) fs p h = bind_other _ fs p h
  main-is_own (client target device keyboard mouse all true) fs p h = refl
  main-is_own (client target device keyboard mouse all false) fs p h = new_other _ fs p h
  main-is_own (list keyboard mouse all) fs p h = refl
  main-is_own (service install user) fs p h =
      perform_all_spared (on_files fs m.system) p _ fs (install_spared user fs p h)
  main-is_own (service uninstall user) fs p h =
      perform_all_spared (on_files fs m.system) p _ fs (uninstall_spared user fs p h)
  main-is_own (service start_service user) fs p h =
      perform_all_spared (on_files fs m.system) p _ fs (control_spared user fs p "start")
  main-is_own (service stop user) fs p h =
      perform_all_spared (on_files fs m.system) p _ fs (control_spared user fs p "stop")
  main-is_own (service restart user) fs p h =
      perform_all_spared (on_files fs m.system) p _ fs (control_spared user fs p "restart")
  main-is_own (service status user) fs p h = refl
  main-is_own (service check user) fs p h = refl
  main-is_own (service logs user) fs p h = refl
  main-is_own (service run user) fs p h = refl
