-- ===== src/System.antt =====
-- The whole server at work: the two listeners and the reaper that src/server.rs spawns, on one shared
-- state, and the commands of src/main.rs that other processes run on the same trust file. The tasks
-- and processes interleave in any order, and between any two pieces of a reaction to a handshake.
pub mod Safe
pub mod Licence
use joycast.Prelude.{ℕ, String, ◌≡◌, Option, none, some, List, [], if◌then◌else◌, eqb}
use joycast.Prelude.Outcome.{Result, ok, err, Codec}
use joycast.Prelude.Map.{Map, Order, get}
use joycast.Prelude.Files.{FileSystem}
use joycast.Trust.{TrustData, TrustManager, Environment, new, reload}
use joycast.Trust.Commands.{match_id, approve_loaded, revoke_loaded}
use joycast.Protocol.{Message, Wire}
use joycast.Transport.{SocketAddr}
use joycast.Server.{Server, Moment, reap}
use joycast.Server.Udp.{Udp, Received}
use joycast.Server.Udp.Turns as Datagrams
use joycast.Server.Iroh.{Iroh, Phase, Input, greeting}
use joycast.Server.Iroh.Turns as Streams

-- a connection of the Iroh listener, and where its handler is
pub record Connection : Type 0 where
  pub phase : Phase
  pub sent : List Message
  pub task : Streams.Task

-- A process that runs `joycast server approve` or `revoke`: not started, or with its manager made, or
-- with that manager reloaded.
pub data Command : Type 0 where
  idle : Command
  created : TrustManager → Command
  loaded : TrustManager → Command

-- Connections and processes have numbers; a connection that is not made yet stands at the start of
-- its handler.
pub record System : Type 0 where
  pub server : Server
  pub client_sessions : Map SocketAddr String
  pub datagrams : List (SocketAddr × List ℕ)
  pub udp_task : Datagrams.Task
  pub connections : ℕ → Connection
  pub commands : ℕ → Command

abbrev pub fresh_connection : Connection
fresh_connection = record { phase = greeting; sent = []; task = Streams.Task.waiting }

-- `JoycastServer::bind` and `run`: no session, no binding, and the manager that `main` has made
abbrev pub started : FileSystem → TrustManager → System
started files trust = record {
  server = record { files = files; trust = trust; sessions = [] };
  client_sessions = [];
  datagrams = [];
  udp_task = Datagrams.Task.waiting;
  connections = λ n. fresh_connection;
  commands = λ n. idle;
}

abbrev pub udp_view : System → Udp
udp_view s = record { server = s.server; client_sessions = s.client_sessions; sent = s.datagrams }

abbrev pub iroh_view : ℕ → System → Iroh
iroh_view n s = record {
  server = s.server;
  phase = (s.connections n).phase;
  sent = (s.connections n).sent;
}

abbrev pub with_udp : System → Datagrams.Task × Udp → System
with_udp s (task, u) = record s {
  server = u.server;
  client_sessions = u.client_sessions;
  datagrams = u.sent;
  udp_task = task;
}

abbrev pub with_iroh : ℕ → System → Streams.Task × Iroh → System
with_iroh n s (task, c) = record s {
  server = c.server;
  connections = λ k.
      if eqb k n then record { phase = c.phase; sent = c.sent; task = task } else s.connections k;
}

abbrev pub with_command : ℕ → System → Command → System
with_command n s command = record s { commands = λ k. if eqb k n then command else s.commands k }

abbrev pub with_files : System → FileSystem → System
with_files s files = record s { server = record s.server { files = files } }

-- `L` is the property of the ids that the operator approves.
module _ (wire : Wire) (json : Codec TrustData String) (order : Order) (debug : Message → String)
    (L : String → Type 0) where
  pub data Step (s : System) : System → Type 0 where
    -- a turn of the task of `run_udp_server`
    datagram :
        (m : Moment) (r : Received)
        → Step s (with_udp s (Datagrams.turn wire json m r (s.udp_task, udp_view s)))
    -- a turn of the task of `handle_iroh_client` for one connection
    frame :
        (m : Moment) (i : Input) (n : ℕ)
        → Step s
            (with_iroh n s (Streams.turn json debug m i ((s.connections n).task, iroh_view n s)))
    -- a round of the reaper
    reaping :
        (now : ℕ)
        → Step s (record s { server = record s.server { sessions = reap now s.server.sessions } })
    -- `joycast server approve` or `revoke` starts, and makes its manager
    command_new :
        (n : ℕ) (env : Environment)
        → Step s (with_command n s (created (new json env s.server.files none)))
    -- the reload of `approve` or `revoke`
    command_reload :
        (n : ℕ) (tm : TrustManager)
        → s.commands n ≡ created tm
        → Step s (with_command n s (loaded (reload json s.server.files tm)))
    -- the rest of `approve`
    command_approve :
        (n : ℕ) (tm : TrustManager) (target now : String)
        → s.commands n ≡ loaded tm
        → ((id : String) → match_id order tm.memory.pending target ≡ some id → L id)
        → Step s (
            with_command n
              (with_files s (approve_loaded json order target now s.server.files tm).1)
              idle)
    -- the rest of `revoke`
    command_revoke :
        (n : ℕ) (tm : TrustManager) (target : String)
        → s.commands n ≡ loaded tm
        → Step s (
            with_command n
              (with_files s (revoke_loaded json order target s.server.files tm).1)
              idle)

  pub data Reach (s : System) : System → Type 0 where
    here : Reach s s
    next : {t u : System} → Reach s t → Step t u → Reach s u
