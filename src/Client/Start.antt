-- ===== src/Client/Start.antt =====
-- `JoycastClient::new` and `run` of src/client.rs: the client from its configuration, and the loop that
-- it enters. `ClientConfig::device_path` and the other paths are texts.
pub mod Identity
use Prim.Native.Char.{Char}
use Prim.Native.String.{◌++◌}
use joycast.Prelude.{ℕ, String, Bool, Option, none, some, List, []}
use joycast.Prelude.Outcome.{Result, ok, err, Codec}
use joycast.Prelude.Files.{FileSystem}
use joycast.Trust.{Environment}
use joycast.Transport.{TargetAddress, SocketAddr, Addresses, ip, iroh}
use joycast.History.{KnownServerInfo, with_path}
use joycast.Device.{Device, KeyCodes}
use joycast.Device.Listing.{list_devices_filtered}
use joycast.Client.{DeviceSelection, resolve_target, load_or_create_client_id, select_device}
use joycast.Client.Udp.{Config, UdpClient}
use joycast.Client.Udp as Datagrams
use joycast.Client.Iroh.{IrohClient, begun}

pub record ClientConfig : Type 0 where
  pub target : Option String
  pub device_path : Option String
  pub keyboard : Bool
  pub mouse : Bool
  pub all : Bool
  pub history_file : Option String
  pub client_id_file : Option String

pub record JoycastClient : Type 0 where
  pub target : TargetAddress
  pub target_raw : String
  pub device_selection : DeviceSelection
  pub client_id : String
  pub history_file : Option String

-- a file of the client: the one that is configured, or one in the user's directory
unfoldable pub joycast_file : Environment → String → Option String → String
joycast_file env name (some path) = path
joycast_file env name none = elim env.config_dir [
  | some dir ↦ dir ++ "/joycast/" ++ name
  | none ↦ "./joycast/" ++ name
]

-- What `new` meets: the devices that are enumerated, the two lines that the user may be asked for,
-- and a new id.
pub record Surroundings : Type 0 where
  pub devices : List (String × Device)
  pub server_line : Result String
  pub device_line : Result String
  pub generated : String

module _ (json : Codec (List KnownServerInfo) String) (addresses : Addresses) (codes : KeyCodes)
    (unicode : Char → String) (parse_usize : String → Option ℕ) where
  -- `requested_path`
  unfoldable pub choose_device : ClientConfig → Surroundings → Result (Option String)
  choose_device config s = elim config.device_path [
    | some path ↦ ok (some path)
    | none ↦
        select_device addresses unicode parse_usize
          (list_devices_filtered codes unicode config.keyboard config.mouse config.all s.devices)
          s.device_line
  ]

  -- `JoycastClient::new`
  unfoldable pub new :
      ClientConfig → Environment → Surroundings → FileSystem → Result JoycastClient × FileSystem
  new config env s fs =
      let history_path = joycast_file env "known_servers.json" config.history_file in
      elim (resolve_target addresses unicode parse_usize json fs history_path config.target
        s.server_line) [
          | err e ↦ (err e, fs)
          | ok (target, target_raw) ↦
              let (client_id, fs') =
                load_or_create_client_id fs (joycast_file env "client_id" config.client_id_file)
                  s.generated in
              elim (choose_device config s) [
                | err e ↦ (err e, fs')
                | ok requested_path ↦ (
                  ok (record {
                    target = target;
                    target_raw = target_raw;
                    device_selection = record {
                      requested_path = requested_path;
                      keyboard = config.keyboard;
                      mouse = config.mouse;
                      all = config.all;
                    };
                    client_id = client_id;
                    history_file = config.history_file;
                  }),
                  fs',
                )
              ]
        ]

-- the loop that `run` enters, with what it starts from
pub data Running : Type 0 where
  run_udp_client : SocketAddr → Config → UdpClient → Running
  run_iroh_client : ℕ → Config → IrohClient → Running

-- `JoycastClient::run`
unfoldable pub run : Environment → JoycastClient → FileSystem → Running
run env client fs =
    let config : Config = record {
      client_id = client.client_id;
      target_raw = client.target_raw;
      history_path = joycast_file env "known_servers.json" client.history_file;
    } in
    elim client.target [
      | ip addr ↦ run_udp_client addr config (Datagrams.begun client.device_selection fs)
      | iroh node_id ↦ run_iroh_client node_id config (begun client.device_selection fs)
    ]
