-- ===== src/Server/Start.antt =====
-- `JoycastServer::bind` and `run` of src/server.rs: which listeners a server has. The answers of the
-- sockets are given; a task is what it listens on.
pub mod Stable
use Prim.Native.String.{◌++◌}
use mathlib.Core.List.{◌++◌ as append}
use joycast.Prelude.{
  ℕ, String, ◌≡◌, refl, ap, ◌∙◌, Bool, true, false, Option, none, some, List, [], ◌∷◌, arith, inl,
  inr, if◌then◌else◌, Bool-cases,
}
use joycast.Prelude.Outcome.{Result, ok, err, Codec, with_context, Result-cases}
use joycast.Prelude.Files.{FileSystem}
use joycast.Trust.{Environment, TrustData, TrustManager}
use joycast.Trust as Trust
use joycast.Transport.{SocketAddr, socket_v4, default_port}
use joycast.Server.{Sessions}
use joycast.Server.Key.{ServerConfig, Hex, load_or_create_secret_key}

-- `iroh_endpoint` is the key that the endpoint has.
pub record JoycastServer : Type 0 where
  pub udp_socket : Option SocketAddr
  pub iroh_endpoint : Option (List ℕ)
  pub trust_manager : TrustManager
  pub active_sessions : Sessions

-- the answers of the two `bind`s, and how an address is printed
pub record Network : Type 0 where
  pub bind_udp : SocketAddr → Result (Unit {0})
  pub bind_endpoint : List ℕ → Result (Unit {0})
  pub print_addr : SocketAddr → String

-- `addr` of `bind`: the configured one, or else `SocketAddr::from(([0, 0, 0, 0], DEFAULT_PORT))`
unfoldable pub addr_of : ServerConfig → SocketAddr
addr_of config = elim config.bind_addr [ some addr ↦ addr | none ↦ socket_v4 0 default_port ]

-- the socket of the Direct UDP listener
unfoldable pub bind_socket : Network → ServerConfig → Result (Option SocketAddr)
bind_socket net config =
    if config.disable_udp
    then ok none
    else (let addr = addr_of config in
        elim (with_context (net.bind_udp addr)
          ("Failed to bind Direct UDP socket at " ++ net.print_addr addr)) [
            | ok u ↦ ok (some addr)
            | err e ↦ err e
          ])

module _ (json : Codec TrustData String) (hex : Hex) where
  -- the endpoint of the Iroh listener; `generated` is a new key
  unfoldable pub bind_endpoint :
      Network
      → ServerConfig
      → Environment
      → FileSystem
      → List ℕ
      → Result (Option (List ℕ)) × FileSystem
  bind_endpoint net config env fs generated =
      if config.disable_iroh
      then (ok none, fs)
      else (let (key, fs') = load_or_create_secret_key hex config env fs generated in
          elim key [
            | err e ↦ (err e, fs')
            | ok secret_key ↦
                elim (with_context (net.bind_endpoint secret_key) "Failed to bind iroh endpoint") [
                  | ok u ↦ (ok (some secret_key), fs')
                  | err e ↦ (err e, fs')
                ]
          ])

  -- the manager that is configured, or a new one
  unfoldable pub manager_of : ServerConfig → Environment → FileSystem → TrustManager
  manager_of config env fs = elim config.trust_manager [
    | some tm ↦ tm
    | none ↦ Trust.new json env fs none
  ]

  -- `bind`
  unfoldable pub bind :
      Network → ServerConfig → Environment → FileSystem → List ℕ → Result JoycastServer × FileSystem
  bind net config env fs generated = elim (bind_socket net config) [
    | err e ↦ (err e, fs)
    | ok udp_socket ↦
        let (endpoint, fs') = bind_endpoint net config env fs generated in
        elim endpoint [
          | err e ↦ (err e, fs')
          | ok iroh_endpoint ↦ (
            ok (record {
              udp_socket = udp_socket;
              iroh_endpoint = iroh_endpoint;
              trust_manager = manager_of config env fs;
              active_sessions = [];
            }),
            fs',
          )
        ]
  ]

-- the tasks that `run` waits for; the reaper runs beside them
pub data Listener : Type 0 where
  run_udp_server : SocketAddr → Listener
  run_iroh_server : List ℕ → Listener

-- `run`
unfoldable pub run : JoycastServer → List Listener
run server =
    append (elim server.udp_socket [ some addr ↦ run_udp_server addr ∷ [] | none ↦ [] ])
      (elim server.iroh_endpoint [ some key ↦ run_iroh_server key ∷ [] | none ↦ [] ])
