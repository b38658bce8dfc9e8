-- ===== src/System/Safe.antt =====
-- What every task of the server, and every command, keeps on the shared state.
use joycast.Prelude.{ℕ, String, ◌≡◌, sym, ◌∙◌, true, some, inl, inr, Bool-cases, eqb}
use mathlib.Core.Bool.{false≢true}
use joycast.Prelude.Outcome.{Codec}
use joycast.Prelude.Map.{Order, string_eq, get, contains_key}
use joycast.Prelude.Files.{FileSystem}
use joycast.Trust.{TrustData, TrustManager, is_approved}
use joycast.Trust.Disk.{is_approved_lem}
use joycast.Trust.Invariant.{Holds, current-Holds}
use joycast.Protocol.{Message, Wire}
use joycast.Transport.{SocketAddr, socket_addr_eq}
use joycast.Server.{Moment, reap}
use joycast.Server.Session.{contains_key-reap, reap-Distinct}
use joycast.Server.Guard.{IsLicensed, IsLicensed-Closed, IsGranted, IsGuarded}
use joycast.Server.Udp.{Received}
use joycast.Server.Udp.Turns as Datagrams
use joycast.Server.Udp.Turns.Guard as UdpGuard
use joycast.Server.Iroh.{Input}
use joycast.Server.Iroh.Turns as Streams
use joycast.Server.Iroh.Turns.Guard as IrohGuard
use joycast.System.{
  System, Command, idle, created, loaded, udp_view, iroh_view, with_udp, with_iroh, with_command,
  with_files,
}

-- The manager of a command, once it is made, works on licensed data.
abbrev pub CommandHolds : (String → Type 0) → Command → Type 0
CommandHolds L idle = Unit {0}
CommandHolds L (created tm) = IsLicensed L tm.memory
CommandHolds L (loaded tm) = IsLicensed L tm.memory

module _ (wire : Wire) (json : Codec TrustData String) (order : Order) (debug : Message → String)
    (L : String → Type 0) where
  -- What every task and command can rely on.
  pub record IsSafe (s : System) : Type 0 where
    pub server : IsGuarded json L s.server
    pub udp_task : UdpGuard.TaskHolds wire json L s.udp_task
    pub bindings : (a : SocketAddr) (k : String) → get s.client_sessions a ≡ some k → IsGranted L k
    pub tasks : (n : ℕ) → IrohGuard.TaskHolds json L (s.connections n).task
    pub commands : (n : ℕ) → CommandHolds L (s.commands n)

  pub approved-L :
      (id : String) (fs : FileSystem) (tm : TrustManager)
      → Holds json (IsLicensed L) fs tm
      → (is_approved json id fs tm).0 ≡ true
      → L id
  approved-L id fs tm h e =
      let now = current-Holds json (IsLicensed-Closed L) fs tm h in
      now.within id (sym (is_approved_lem json id fs tm) ∙ e)

  pub datagram-IsSafe :
      (s : System) (m : Moment) (r : Received)
      → IsSafe s
      → IsSafe (with_udp s (Datagrams.turn wire json m r (s.udp_task, udp_view s)))
  datagram-IsSafe s m r v =
      let before : UdpGuard.IsSound wire json L s.udp_task (udp_view s) = record {
        server = v.server;
        task = v.udp_task;
        bindings = v.bindings;
      } in
      let after = UdpGuard.turn-IsSound wire json L m r s.udp_task (udp_view s) before in
      record {
        server = after.server;
        udp_task = after.task;
        bindings = after.bindings;
        tasks = v.tasks;
        commands = v.commands;
      }

  pub frame-IsSafe :
      (s : System) (m : Moment) (i : Input) (n : ℕ)
      → IsSafe s
      → IsSafe (with_iroh n s (Streams.turn json debug m i ((s.connections n).task, iroh_view n s)))
  frame-IsSafe s m i n v =
      let (g, k) =
        IrohGuard.turn-IsSound json L debug m i (s.connections n).task (iroh_view n s)
          (v.server, v.tasks n) in
      record {
        server = g;
        udp_task = v.udp_task;
        bindings = v.bindings;
        tasks = λ x. elim (Bool-cases (eqb x n)) [
          | inl same ↦ rw same k
          | inr other ↦ rw other (v.tasks x)
        ];
        commands = v.commands;
      }

  pub reaping-IsSafe :
      (s : System) (now : ℕ)
      → IsSafe s
      → IsSafe (record s { server = record s.server { sessions = reap now s.server.sessions } })
  reaping-IsSafe s now v = record {
    server = record {
      trust = v.server.trust;
      sessions = λ k c. elim (Bool-cases (contains_key s.server.sessions k)) [
        | inl there ↦ v.server.sessions k there
        | inr gone ↦ absurd (false≢true (sym (contains_key-reap now s.server.sessions k gone) ∙ c))
      ];
      distinct = reap-Distinct now s.server.sessions v.server.distinct;
    };
    udp_task = v.udp_task;
    bindings = v.bindings;
    tasks = v.tasks;
    commands = v.commands;
  }

  pub with_command-IsSafe :
      (n : ℕ) (s : System) (command : Command)
      → CommandHolds L command
      → IsSafe s
      → IsSafe (with_command n s command)
  with_command-IsSafe n s command k v = record {
    server = v.server;
    udp_task = v.udp_task;
    bindings = v.bindings;
    tasks = v.tasks;
    commands = λ x. elim (Bool-cases (eqb x n)) [
      | inl same ↦ rw same k
      | inr other ↦ rw other (v.commands x)
    ];
  }

  -- Another process, whose manager is `tm` in the end, leaves these files.
  pub with_files-IsSafe :
      (s : System) (tm : TrustManager) (files : FileSystem)
      → Holds json (IsLicensed L) files tm
      → IsSafe s
      → IsSafe (with_files s files)
  with_files-IsSafe s tm files h v = record {
    server = record {
      trust = record { memory = v.server.trust.memory; files = h.files };
      sessions = v.server.sessions;
      distinct = v.server.distinct;
    };
    udp_task = v.udp_task;
    bindings = v.bindings;
    tasks = v.tasks;
    commands = v.commands;
  }
