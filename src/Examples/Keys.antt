-- ===== src/Examples/Keys.antt =====
-- The server's key where no file has one yet.
use joycast.Prelude.{ℕ, ◌≡◌, refl, false, none, some, List, [], ◌∷◌}
use joycast.Prelude.Outcome.{ok}
use joycast.Prelude.Files.{FileSystem, exists}
use joycast.Trust.{Environment, TrustManager, new}
use joycast.Server.Key.{
  ServerConfig, Hex, find_or_create, first_key, candidates, key_at, sudo_candidate, user_candidate,
  load_or_create_secret_key,
}
use joycast.Transport.{socket_v4}
use joycast.Server.Start.{
  JoycastServer, Network, addr_of, bind, bind_socket, bind_endpoint, manager_of,
}
use joycast.Examples.{only}
use joycast.Examples.Json.{json}

abbrev eight : List ℕ → List ℕ
eight rest = 1 ∷ 2 ∷ 3 ∷ 4 ∷ 5 ∷ 6 ∷ 7 ∷ 8 ∷ rest

abbrev pub key : List ℕ
key = eight (eight (eight (eight [])))

-- one key and its text
abbrev pub hex : Hex
hex = record { encode = λ bytes. "k"; decode = λ text. ok key }

abbrev pub env : Environment
env = record {
  user = some "ada";
  sudo_user = none;
  journal_stream = none;
  systemd_exec_pid = none;
  config_dir = some "/home/ada/.config";
}

abbrev pub config : ServerConfig
config = record {
  bind_addr = none;
  secret_key = none;
  key_file = none;
  disable_udp = false;
  disable_iroh = false;
  trust_manager = none;
}

abbrev pub network : Network
network = record {
  bind_udp = λ addr. ok tt;
  bind_endpoint = λ key. ok tt;
  print_addr = λ addr. "0.0.0.0:12398";
}

-- the server with this key
abbrev pub up : TrustManager → JoycastServer
up tm = record {
  udp_socket = some (socket_v4 0 12398);
  iroh_endpoint = some key;
  trust_manager = tm;
  active_sessions = [];
}

abbrev there : FileSystem
there = only "/x" ""

first : (bind json hex network config env there key).0 ≡ ok (up (new json env there none))
unfolding bind bind_socket bind_endpoint load_or_create_secret_key find_or_create first_key
    candidates key_at exists sudo_candidate user_candidate addr_of new manager_of
first = refl
