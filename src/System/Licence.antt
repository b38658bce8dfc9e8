-- ===== src/System/Licence.antt =====
-- No client plays without the operator's approval, in any interleaving.
use joycast.Prelude.{String, ◌≡◌, sym, ◌∙◌, subst, true, none, some, arith}
use joycast.Prelude.Outcome.{Codec}
use joycast.Prelude.Map.{Order, string_eq, get, contains_key}
use joycast.Prelude.Map.Laws.{Distinct}
use joycast.Prelude.Files.{FileSystem}
use joycast.Trust.{TrustData, TrustManager, Environment, no_trust, new, is_approved}
use joycast.Trust.Disk.{stored, current}
use joycast.Trust.Consistency.{IsConsistent}
use joycast.Trust.Invariant.{
  Holds, current-Holds, reload-Holds, new-Holds, approve_loaded-Holds, revoke_loaded-Holds,
}
use joycast.Protocol.{Message, HandshakePayload, Wire}
use joycast.Transport.{SocketAddr, socket_addr_eq}
use joycast.System.{
  System, idle, Step, datagram, frame, reaping, command_new, command_reload, command_approve,
  command_revoke, Reach, here, next, started,
}
use joycast.Server.{session_key}
use joycast.Server.Owner.{HasNoColon, session_key_owner}
use joycast.Server.Guard.{IsLicensed, IsLicensed-Closed, IsGranted}
use joycast.System.Safe.{
  CommandHolds, IsSafe, approved-L, datagram-IsSafe, frame-IsSafe, reaping-IsSafe,
  with_command-IsSafe, with_files-IsSafe,
}

-- a manager with nothing in memory
abbrev empty : TrustManager
empty = record { store_path = ""; memory = no_trust }

module _ (wire : Wire) (json : Codec TrustData String) (order : Order) (debug : Message → String)
    (L : String → Type 0) where
  -- What a command's manager has read is licensed, and so is every file.
  command_manager :
      (s : System) (tm : TrustManager)
      → IsLicensed L tm.memory
      → IsSafe wire json order debug L s
      → Holds json (IsLicensed L) s.server.files tm
  command_manager s tm k v = record { memory = k; files = v.server.trust.files }

  pub Step-IsSafe :
      {s t : System}
      → Step wire json order debug L s t
      → IsSafe wire json order debug L s
      → IsSafe wire json order debug L t
  Step-IsSafe {s} (datagram m r) v = datagram-IsSafe wire json order debug L s m r v
  Step-IsSafe {s} (frame m i n) v = frame-IsSafe wire json order debug L s m i n v
  Step-IsSafe {s} (reaping now) v = reaping-IsSafe wire json order debug L s now v
  Step-IsSafe {s} (command_new n env) v =
      let h =
        new-Holds json (IsLicensed-Closed L) env s.server.files none s.server.trust
          v.server.trust in
      with_command-IsSafe wire json order debug L n s _ h.memory v
  Step-IsSafe {s} (command_reload n tm e) v =
      let k : IsLicensed L tm.memory = subst (CommandHolds L) e (v.commands n) in
      let h =
        reload-Holds json (IsLicensed-Closed L) s.server.files tm (command_manager s tm k v) in
      with_command-IsSafe wire json order debug L n s _ h.memory v
  Step-IsSafe {s} (command_approve n tm target now e l) v =
      let k : IsLicensed L tm.memory = subst (CommandHolds L) e (v.commands n) in
      let h =
        approve_loaded-Holds json (IsLicensed-Closed L) order target now s.server.files tm l
          (command_manager s tm k v) in
      with_command-IsSafe wire json order debug L n _ idle tt
        (with_files-IsSafe wire json order debug L s _ _ h v)
  Step-IsSafe {s} (command_revoke n tm target e) v =
      let k : IsLicensed L tm.memory = subst (CommandHolds L) e (v.commands n) in
      let h =
        revoke_loaded-Holds json (IsLicensed-Closed L) order target s.server.files tm
          (command_manager s tm k v) in
      with_command-IsSafe wire json order debug L n _ idle tt
        (with_files-IsSafe wire json order debug L s _ _ h v)

  pub Reach-IsSafe :
      {s t : System}
      → IsSafe wire json order debug L s
      → Reach wire json order debug L s t
      → IsSafe wire json order debug L t
  Reach-IsSafe v here = v
  Reach-IsSafe v (next r st) = Step-IsSafe st (Reach-IsSafe v r)

  started-IsSafe :
      (env : Environment) (files : FileSystem)
      → ((path : String) (d : TrustData) → stored json files path ≡ some d → IsLicensed L d)
      → IsSafe wire json order debug L (started files (new json env files none))
  unfolding contains_key get
  started-IsSafe env files clean = record {
    server = record {
      trust =
          new-Holds json (IsLicensed-Closed L) env files none empty
            (record { memory = (IsLicensed-Closed L).nothing; files = clean });
      sessions = λ k c. absurd (ground arith);
      distinct = tt;
    };
    udp_task = tt;
    bindings = λ a k c. absurd (ground arith);
    tasks = λ n. tt;
    commands = λ n. tt;
  }

  -- The server starts on files whose trust data is consistent, each with no approved client but
  -- those that satisfy `L`, and every approve command picks a client that satisfies `L`. Then,
  -- whatever the listeners, the reaper and any number of commands of the operator do, and however
  -- their pieces interleave: each session, and each session that an address is bound to, is the one
  -- of a handshake of a client that satisfies `L`; no other client is approved; the keys of the
  -- sessions are distinct; and the trust data that the server works on is consistent.
  pub Reach-IsGranted :
      (env : Environment) (files : FileSystem) (s : System)
      → ((path : String) (d : TrustData) → stored json files path ≡ some d → IsLicensed L d)
      → Reach wire json order debug L (started files (new json env files none)) s
      → ((k : String) → contains_key s.server.sessions k ≡ true → IsGranted L k)
        × ((a : SocketAddr) (k : String) → get s.client_sessions a ≡ some k → IsGranted L k)
        × ((id : String) → (is_approved json id s.server.files s.server.trust).0 ≡ true → L id)
        × Distinct s.server.sessions
        × IsConsistent (current json s.server.files s.server.trust)
  Reach-IsGranted env files s clean r =
      let v = Reach-IsSafe (started-IsSafe env files clean) r in
      let now =
        current-Holds json (IsLicensed-Closed L) s.server.files s.server.trust v.server.trust in
      (
        v.server.sessions,
        v.bindings,
        λ id a.
            approved-L wire json order debug L id s.server.files s.server.trust v.server.trust a,
        v.server.distinct,
        now.consistent,
      )

  -- The server starts as for `Reach-IsGranted`, and no id that satisfies `L` has a colon. Then,
  -- whatever happens, each session belongs to one client, which satisfies `L`: every handshake that
  -- reaches this session, of a client that satisfies `L`, is of this client.
  pub Reach-IsOwned :
      (env : Environment) (files : FileSystem) (s : System) (k : String)
      → ((path : String) (d : TrustData) → stored json files path ≡ some d → IsLicensed L d)
      → ((id : String) → L id → HasNoColon id)
      → Reach wire json order debug L (started files (new json env files none)) s
      → contains_key s.server.sessions k ≡ true
      → (id : String) × L id
        × ((q : HandshakePayload) → session_key q ≡ k → L q.client_id → q.client_id ≡ id)
  Reach-IsOwned env files s k clean plain r there =
      let v = Reach-IsSafe (started-IsSafe env files clean) r in
      let (p, e, l) = v.server.sessions k there in
      (
        p.client_id,
        l,
        λ q f g. (session_key_owner q p (plain q.client_id g) (plain p.client_id l) (f ∙ sym e)).0,
      )
