-- ===== src/CommandLine/Approval.antt =====
-- `joycast server approve` of src/main.rs, and the server that is started after it.
use Prim.Native.Char.{Char}
use text.Mathlib.TextEquality.{eq_iff}
use joycast.Prelude.{
  ℕ, String, ◌≡◌, refl, sym, ap, ◌∙◌, Bool, true, false, Option, none, some, List, arith, inl, inr,
  subst,
}
use joycast.Prelude.Outcome.{Result, ok, Codec, Result-cases}
use joycast.Prelude.Map.{Order, string_eq, ◌==◌, contains_key}
use joycast.Prelude.Files.{FileSystem, File, read_to_string}
use joycast.Trust as Trust
use joycast.Trust.{ApprovedClientInfo, TrustData, TrustManager, is_approved}
use joycast.Trust.Commands.{approve}
use joycast.Trust.Disk.{stored, current, is_approved_lem}
use joycast.Trust.Approval.{approve_effect}
use joycast.Trust.Consistency.{IsConsistent}
use joycast.Transport.{SocketAddr, Addresses}
use joycast.History.{KnownServerInfo}
use joycast.Device.{KeyCodes}
use joycast.Server.Key.{Hex, target_path}
use joycast.Server.Start.{JoycastServer, bind, manager_of}
use joycast.Server.Start.Stable.{bind-Starts}
use joycast.CommandLine.{
  server, server_config, approving, Machine, start_server, run_server, main, Shown, authorized,
  serving,
}
use joycast.CommandLine.Frame.{own_file, main-is_own}
use joycast.Service.{Request}

module _ (trust : Codec TrustData String) where
  stored_same :
      (fs fs' : FileSystem) (path : String)
      → fs' path ≡ fs path
      → stored trust fs' path ≡ stored trust fs path
  unfolding stored read_to_string
  stored_same fs fs' path h =
      ground (arith, ap (λ (x : File). x.content) h, ap (λ (x : File). x.readable) h)

  current_same :
      (fs fs' : FileSystem) (tm : TrustManager)
      → fs' tm.store_path ≡ fs tm.store_path
      → current trust fs' tm ≡ current trust fs tm
  unfolding current
  current_same fs fs' tm h = rw (stored_same fs fs' tm.store_path h, current) refl

  module _ (history : Codec (List KnownServerInfo) String) (hex : Hex) (order : Order)
      (addresses : Addresses) (codes : KeyCodes) (unicode : Char → String)
      (parse_usize : String → Option ℕ) where
    -- `joycast server approve target`
    abbrev pub approve_command :
        Machine → String → FileSystem → Result Shown × FileSystem × List Request
    approve_command m target fs =
        main trust history hex order addresses codes unicode parse_usize m
          (server (some (approving target)) none none none false false) fs

    -- `joycast server`, with its options
    abbrev pub start_command :
        Machine
        → Option SocketAddr
        → Option String
        → Option String
        → Bool
        → Bool
        → FileSystem
        → Result Shown × FileSystem × List Request
    start_command m bind_addr secret_key key_file no_udp no_iroh fs =
        main trust history hex order addresses codes unicode parse_usize m
          (server none bind_addr secret_key key_file no_udp no_iroh) fs

    approving-ok :
        (m : Machine) (target : String) (b : Option SocketAddr) (k f : Option String) (u i : Bool)
        (fs : FileSystem) (a : ApprovedClientInfo)
        → let command = server (some (approving target)) b k f u i in
          (main trust history hex order addresses codes unicode parse_usize m command fs).0
            ≡ ok (authorized a)
          → (approve trust order target m.utc fs (Trust.new trust m.env fs none)).0 ≡ ok a
    unfolding main run_server
    approving-ok m target b k f u i fs a h = ground arith

    approving-files :
        (m : Machine) (target : String) (fs : FileSystem)
        → (approve_command m target fs).1
          ≡ (approve trust order target m.utc fs (Trust.new trust m.env fs none)).1
    unfolding main run_server
    approving-files m target fs = refl

    serving-manager :
        (m : Machine) (b : Option SocketAddr) (k f : Option String) (u i : Bool) (fs : FileSystem)
        (s : JoycastServer)
        → (main trust history hex order addresses codes unicode parse_usize m
            (server none b k f u i)
            fs).0
          ≡ ok (serving s)
        → s.trust_manager ≡ Trust.new trust m.env fs none
    unfolding main run_server start_server manager_of
    serving-manager m b k f u i fs s h =
        let config = server_config b k f u i (Trust.new trust m.env fs none) in
        elim (Result-cases (bind trust hex m.network config m.env fs m.new_key).0) [
          | inl (t, e) ↦
              let started = bind-Starts trust hex m.network config m.env fs m.new_key t e in
              let same : t ≡ s = ground arith in
              ap (λ (x : JoycastServer). x.trust_manager) (sym same) ∙ started.manager
          | inr (x, e) ↦ absurd (ground arith)
        ]

    -- If `joycast server approve` succeeds on a trust file that can be read and holds consistent
    -- data, the server that is started on the files it leaves, with any options, answers that this
    -- client is approved. The two processes take the same path for the trust file, and a new key of
    -- the server is not written there.
    pub approve_command-start_command :
        (m later : Machine) (target : String) (b : Option SocketAddr) (k f : Option String)
        (u i : Bool) (fs : FileSystem) (a : ApprovedClientInfo) (s : JoycastServer)
        → (fs (Trust.new trust m.env fs none).store_path).readable ≡ true
        → IsConsistent (current trust fs (Trust.new trust m.env fs none))
        → (Trust.new trust later.env (approve_command m target fs).1 none).store_path
          ≡ (Trust.new trust m.env fs none).store_path
        → target_path later.env (approve_command m target fs).1
            == (Trust.new trust m.env fs none).store_path
          ≡ false
        → (approve_command m target fs).0 ≡ ok (authorized a)
        → (start_command later b k f u i (approve_command m target fs).1).0 ≡ ok (serving s)
        → (is_approved trust a.client_id
            (start_command later b k f u i (approve_command m target fs).1).1
            s.trust_manager).0
          ≡ true
    unfolding own_file
    approve_command-start_command m later target b k f u i fs a s r v same_path apart granted up =
        let tm = Trust.new trust m.env fs none in
        let between : FileSystem = (approve_command m target fs).1 in
        let last : FileSystem = (start_command later b k f u i between).1 in
        let mine : s.trust_manager ≡ Trust.new trust later.env between none =
          serving-manager later b k f u i between s up in
        let path : s.trust_manager.store_path ≡ tm.store_path =
          ap (λ (x : TrustManager). x.store_path) mine ∙ same_path in
        let kept : last tm.store_path ≡ between tm.store_path =
          main-is_own trust history hex order addresses codes unicode parse_usize later
            (server none b k f u i) between tm.store_path apart in
        let moved =
          approve_effect trust order target m.utc fs tm s.trust_manager a r path
            (approving-ok m target none none none false false fs a granted) in
        let same_files : between ≡ (approve trust order target m.utc fs tm).1 =
          approving-files m target fs in
        let seen : current trust last s.trust_manager ≡ current trust between s.trust_manager =
          current_same between last s.trust_manager
            (subst (λ (p : String). last p ≡ between p) (sym path) kept) in
        let id : a.client_id ≡ moved.id =
          ap (λ (x : ApprovedClientInfo). x.client_id) moved.granted
          ∙ v.pending_ids moved.id moved.info moved.was_pending in
        let known : contains_key
              (current trust (approve trust order target m.utc fs tm).1 s.trust_manager).approved
              a.client_id
            ≡ true =
          ground (arith, moved.approved a.client_id, eq_iff moved.id a.client_id) in
        is_approved_lem trust a.client_id last s.trust_manager
        ∙ (ap (λ (d : TrustData). contains_key d.approved a.client_id)
              (seen ∙ ap (λ (x : FileSystem). current trust x s.trust_manager) same_files)
            ∙ known)
