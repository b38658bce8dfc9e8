-- ===== src/CommandLine.antt =====
-- src/main.rs: the commands, and what each calls. What is printed of a result, beside the result, is
-- left out. The server and the client that `main` goes over to are given by their first state.
pub mod Frame
pub mod Approval
use Prim.Native.Char.{Char}
use joycast.Prelude.{ℕ, String, Bool, true, false, Option, none, some, List, [], if◌then◌else◌}
use joycast.Prelude.Outcome.{Result, ok, err, Codec}
use joycast.Prelude.Map.{Order, string_eq, ◌==◌}
use joycast.Prelude.Files.{FileSystem}
use joycast.Trust as Trust
use joycast.Trust.{Environment, TrustData, TrustManager, PendingClientInfo, ApprovedClientInfo}
use joycast.Trust.Commands.{approve, revoke, list_pending, list_approved}
use joycast.Transport.{SocketAddr, socket_v4, Addresses}
use joycast.History.{KnownServerInfo, with_path}
use joycast.Device.{DeviceInfo, KeyCodes}
use joycast.Device.Listing.{list_devices_filtered}
use joycast.Server.Key.{ServerConfig, Hex, target_path}
use joycast.Server.Start.{JoycastServer, Network, bind}
use joycast.Client.Start as Clients
use joycast.Client.Start.{Surroundings, Running, joycast_file}
use joycast.Service as Units
use joycast.Service.{System, Request, service_manager, control, status_of, on_files, perform_all}

pub data ServerSubcommand : Type 0 where
  start pending approved : ServerSubcommand
  approving revoking : (client_id : String) → ServerSubcommand

pub data ServiceSubcommand : Type 0 where
  install uninstall start_service stop restart status check logs run : ServiceSubcommand

pub data Commands : Type 0 where
  server :
      Option ServerSubcommand
      → (bind_addr : Option SocketAddr) (secret_key key_file : Option String)
        (no_udp no_iroh : Bool)
      → Commands
  client : (target device : Option String) → (keyboard mouse all history : Bool) → Commands
  list : (keyboard mouse all : Bool) → Commands
  service : ServiceSubcommand → (user : Bool) → Commands

-- What a command has to show.
pub data Shown : Type 0 where
  pending_clients : List PendingClientInfo → Shown
  approved_clients : List ApprovedClientInfo → Shown
  authorized : ApprovedClientInfo → Shown
  revoked : String → Shown
  known_servers : List KnownServerInfo → Shown
  devices : List DeviceInfo → Shown
  -- `run` has been called
  serving : JoycastServer → Shown
  streaming : Running → Shown
  done : Shown

-- What the process meets: its environment, the clock, the network, a new key, the terminal and the
-- devices, and systemd.
pub record Machine : Type 0 where
  pub env : Environment
  pub utc : String
  pub network : Network
  pub new_key : List ℕ
  pub surroundings : Surroundings
  pub system : System

abbrev shown : {A : Type 0} → (A → Shown) → Result A → Result Shown
shown f (ok a) = ok (f a)
shown f (err e) = err e

-- the configuration of the server; the default address is 0.0.0.0:12398
abbrev pub server_config :
    Option SocketAddr → Option String → Option String → Bool → Bool → TrustManager → ServerConfig
server_config bind_addr secret_key key_file no_udp no_iroh tm = record {
  bind_addr = elim bind_addr [ some addr ↦ some addr | none ↦ some (socket_v4 0 12398) ];
  secret_key = secret_key;
  key_file = key_file;
  disable_udp = no_udp;
  disable_iroh = no_iroh;
  trust_manager = some tm;
}

module _ (trust : Codec TrustData String) (history : Codec (List KnownServerInfo) String)
    (hex : Hex) (order : Order) (addresses : Addresses) (codes : KeyCodes) (unicode : Char → String)
    (parse_usize : String → Option ℕ) (m : Machine) where
  -- the arm of `Start`, and of no subcommand
  unfoldable pub start_server :
      Option SocketAddr
      → Option String
      → Option String
      → Bool
      → Bool
      → TrustManager
      → FileSystem
      → Result Shown × FileSystem
  start_server bind_addr secret_key key_file no_udp no_iroh tm fs =
      let config = server_config bind_addr secret_key key_file no_udp no_iroh tm in
      let (r, fs') = bind trust hex m.network config m.env fs m.new_key in (shown serving r, fs')

  -- the arms of `Commands::Client`
  unfoldable pub run_client :
      Option String → Option String → Bool → Bool → Bool → FileSystem → Result Shown × FileSystem
  run_client target device keyboard mouse all fs =
      let config : Clients.ClientConfig = record {
        target = target;
        device_path = device;
        keyboard = keyboard;
        mouse = mouse;
        all = all;
        history_file = none;
        client_id_file = none;
      } in
      let (r, fs') =
        Clients.new history addresses codes unicode parse_usize config m.env m.surroundings fs in
      (shown (λ c. streaming (Clients.run m.env c fs')) r, fs')

  -- the arms of `Commands::Service`, with the answers of the system
  unfoldable pub run_service : System → ServiceSubcommand → Bool → Result (Unit {0}) × List Request
  run_service sys install user = Units.install sys (service_manager m.env user)
  run_service sys uninstall user = Units.uninstall sys (service_manager m.env user)
  run_service sys start_service user = control sys (service_manager m.env user) "start"
  run_service sys stop user = control sys (service_manager m.env user) "stop"
  run_service sys restart user = control sys (service_manager m.env user) "restart"
  run_service sys status user = (ok tt, status_of (service_manager m.env user))
  run_service sys check user = (ok tt, status_of (service_manager m.env user))
  run_service sys logs user = (ok tt, Units.logs (service_manager m.env user))
  run_service sys run user = (ok tt, Units.logs (service_manager m.env user))

  -- the arms of `Commands::Server`
  unfoldable pub run_server :
      Option ServerSubcommand
      → Option SocketAddr
      → Option String
      → Option String
      → Bool
      → Bool
      → FileSystem
      → Result Shown × FileSystem
  run_server (some pending) bind_addr secret_key key_file no_udp no_iroh fs =
      (ok (pending_clients (list_pending trust order fs (Trust.new trust m.env fs none)).0), fs)
  run_server (some (approving client_id)) bind_addr secret_key key_file no_udp no_iroh fs =
      let (r, fs', tm) = approve trust order client_id m.utc fs (Trust.new trust m.env fs none) in
      (shown authorized r, fs')
  run_server (some approved) bind_addr secret_key key_file no_udp no_iroh fs =
      (ok (approved_clients (list_approved trust order fs (Trust.new trust m.env fs none)).0), fs)
  run_server (some (revoking client_id)) bind_addr secret_key key_file no_udp no_iroh fs =
      let (r, fs', tm) = revoke trust order client_id fs (Trust.new trust m.env fs none) in
      (shown (λ b. revoked client_id) r, fs')
  run_server _ bind_addr secret_key key_file no_udp no_iroh fs =
      start_server bind_addr secret_key key_file no_udp no_iroh (Trust.new trust m.env fs none) fs

  -- `main`: its result, the files it leaves, and what `service` asks of the system, in order
  unfoldable pub main : Commands → FileSystem → Result Shown × FileSystem × List Request
  main (server subcommand bind_addr secret_key key_file no_udp no_iroh) fs =
      let (r, fs') = run_server subcommand bind_addr secret_key key_file no_udp no_iroh fs in
      (r, fs', [])
  main (client target device keyboard mouse all true) fs = (
    ok (
        known_servers
          (with_path history fs (joycast_file m.env "known_servers.json" none)).servers),
    fs,
    [],
  )
  main (client target device keyboard mouse all false) fs =
      let (r, fs') = run_client target device keyboard mouse all fs in (r, fs', [])
  main (list keyboard mouse all) fs = (
    ok (devices (list_devices_filtered codes unicode keyboard mouse all m.surroundings.devices)),
    fs,
    [],
  )
  main (service subcommand user) fs =
      let sys = on_files fs m.system in
      let (r, asked) = run_service sys subcommand user in
      (shown (λ u. done) r, perform_all sys asked fs, asked)
