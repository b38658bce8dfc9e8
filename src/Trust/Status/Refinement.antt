-- ===== src/Trust/Status/Refinement.antt =====
-- The methods of src/trust.rs, one after the other, make the moves of the abstract states.
use text.Mathlib.Text.{starts_with}
use joycast.Prelude.{
  String, ◌≡◌, refl, ap, ◌∙◌, subst, true, some, List, [], ◌∷◌, arith, inl, inr, Bool-cases,
  Option-cases,
}
use joycast.Prelude.Outcome.{Codec}
use joycast.Prelude.Map.{Order, string_eq, get, contains_key}
use joycast.Prelude.Files.{FileSystem}
use joycast.Trust.{
  PendingClientInfo, TrustData, TrustManager, reload, save, record_pending, register_pending,
  approve_match, is_approved,
}
use joycast.Trust.Commands.{approve_loaded, approve, revoke_loaded, revoke, match_id}
use joycast.Trust.Disk.{stored, reload_lem, current_of_stored, save_lem, is_approved_lem}
use joycast.Trust.Approval.{match_id-holds}
use joycast.Trust.Consistency.{IsConsistent}
use joycast.Trust.Status.{
  Status, status, is_trusted, Method, registering, approving, revoking, checking, Moves, done, skip,
  go, answer, Next, unmoved, request-Next, grant-Next, withdraw-Next,
}

module _ (json : Codec TrustData String) (order : Order) where
  -- the method on a manager, and the files after it
  unfoldable pub perform : Method → FileSystem → TrustManager → FileSystem
  perform (registering client_id hostname device_name transport now) fs tm =
      (register_pending json client_id hostname device_name transport now fs tm).0
  perform (approving target_id now) fs tm = (approve json order target_id now fs tm).1
  perform (revoking target_id) fs tm = (revoke json order target_id fs tm).1
  perform (checking client_id) fs tm = fs

  abbrev After : Method → FileSystem → String → TrustData → Type 0
  After x fs path d = (d' : TrustData) × (stored json fs path ≡ some d') × Next x d d'

  stored-readable :
      (fs : FileSystem) (path : String) (d : TrustData)
      → stored json fs path ≡ some d
      → (fs path).readable ≡ true
  unfolding stored
  stored-readable fs path d h = ground arith

  save-After :
      (x : Method) (fs : FileSystem) (path : String) (d d' : TrustData)
      → stored json fs path ≡ some d
      → IsConsistent d
      → Next x d d'
      → After x (save json fs path d').1 path d
  save-After x fs path d d' s v n = elim (save_lem json fs path d' (stored-readable fs path d s)) [
    | inl (o, k) ↦ (d', k, n)
    | inr (e, o, k) ↦ (d, ap (λ (f : FileSystem). stored json f path) k ∙ s, unmoved x d v)
  ]

  record_pending-After :
      (hostname device_name transport now : String) (p : PendingClientInfo) (fs : FileSystem)
      (tm : TrustManager)
      → stored json fs tm.store_path ≡ some tm.memory
      → IsConsistent tm.memory
      → After
          (registering p.client_id hostname device_name transport now)
          (record_pending json p fs tm).0
          tm.store_path
          tm.memory
  unfolding record_pending
  record_pending-After hostname device_name transport now p fs tm s v =
      let x = registering p.client_id hostname device_name transport now in
      elim (Bool-cases (contains_key tm.memory.approved p.client_id)) [
        | inl there ↦ rw there (tm.memory, s, unmoved x tm.memory v)
        | inr absent ↦
            let next = request-Next hostname device_name transport now p tm.memory v absent in
            let saved = save-After x fs tm.store_path tm.memory _ s v next in rw absent saved
      ]

  approve_match-After :
      (target id now : String) (fs : FileSystem) (tm : TrustManager)
      → stored json fs tm.store_path ≡ some tm.memory
      → IsConsistent tm.memory
      → starts_with id target ≡ true
      → After (approving target now) (approve_match json id now fs tm).1 tm.store_path tm.memory
  unfolding approve_match
  approve_match-After target id now fs tm s v m = elim (Option-cases (get tm.memory.pending id)) [
    | inl e ↦ rw (e, approve_match) (tm.memory, s, unmoved _ tm.memory v)
    | inr (p, e) ↦
        rw (e, approve_match)
          (save-After _ fs tm.store_path tm.memory _ s v
            (grant-Next target id now p tm.memory v m e))
  ]

  approve_loaded-After :
      (target now : String) (fs : FileSystem) (tm : TrustManager)
      → stored json fs tm.store_path ≡ some tm.memory
      → IsConsistent tm.memory
      → After
          (approving target now)
          (approve_loaded json order target now fs tm).1
          tm.store_path
          tm.memory
  unfolding approve_loaded
  approve_loaded-After target now fs tm s v =
      elim (Option-cases (match_id order tm.memory.pending target)) [
        | inl e ↦ rw (e, approve_loaded) (tm.memory, s, unmoved _ tm.memory v)
        | inr (id, e) ↦
            let (m, c) = match_id-holds order tm.memory.pending target id e in
            rw (e, approve_loaded) (approve_match-After target id now fs tm s v m)
      ]

  revoke_loaded-After :
      (target : String) (fs : FileSystem) (tm : TrustManager)
      → stored json fs tm.store_path ≡ some tm.memory
      → IsConsistent tm.memory
      → After (revoking target) (revoke_loaded json order target fs tm).1 tm.store_path tm.memory
  unfolding revoke_loaded
  revoke_loaded-After target fs tm s v =
      elim (Option-cases (match_id order tm.memory.approved target)) [
        | inl e ↦ rw (e, revoke_loaded) (tm.memory, s, unmoved _ tm.memory v)
        | inr (id, e) ↦
            let (m, c) = match_id-holds order tm.memory.approved target id e in
            rw (e, revoke_loaded)
              (save-After _ fs tm.store_path tm.memory _ s v
                (withdraw-Next target id tm.memory v m c))
      ]

  -- the manager works on what the file holds
  loaded :
      (fs : FileSystem) (tm : TrustManager) (d : TrustData)
      → stored json fs tm.store_path ≡ some d
      → reload json fs tm ≡ record tm { memory = d }
  loaded fs tm d s =
      reload_lem json fs tm
      ∙ ap (λ (c : TrustData). record tm { memory = c })
          (current_of_stored json fs tm.store_path tm d refl s)

  perform-After :
      (x : Method) (fs : FileSystem) (tm : TrustManager) (d : TrustData)
      → stored json fs tm.store_path ≡ some d
      → IsConsistent d
      → After x (perform x fs tm) tm.store_path d
  unfolding perform register_pending approve revoke
  perform-After (registering client_id hostname device_name transport now) fs tm d s v =
      rw (loaded fs tm d s, perform)
        (record_pending-After hostname device_name transport now _ fs (record tm { memory = d }) s
          v)
  perform-After (approving target_id now) fs tm d s v =
      rw (loaded fs tm d s, perform)
        (approve_loaded-After target_id now fs (record tm { memory = d }) s v)
  perform-After (revoking target_id) fs tm d s v =
      rw (loaded fs tm d s, perform)
        (revoke_loaded-After target_id fs (record tm { memory = d }) s v)
  perform-After (checking client_id) fs tm d s v = (d, s, unmoved _ d v)

  -- methods one after the other, each of a manager of its own on the same file
  unfoldable pub performs : String → List (Method × TrustData) → FileSystem → FileSystem
  performs path [] fs = fs
  performs path ((x, memory) ∷ rest) fs =
      performs path rest (perform x fs (record { store_path = path; memory = memory }))

  -- The trust file implements the abstract states of the clients: unknown, waiting, trusted.
  -- Methods that run one after the other, each of a manager of its own on a file that can be read
  -- and holds consistent data, leave data in the file whose states come from those at the start by
  -- one move for each method, or none: `register_pending` makes its client wait, if it was unknown;
  -- `approve` makes a client trusted that was waiting, under an id that begins with its text;
  -- `revoke` makes a client unknown that was trusted, under such an id. And every manager on the
  -- file then approves exactly the clients that are trusted.
  pub performs-Moves :
      (path : String) (methods : List (Method × TrustData)) (fs : FileSystem) (d memory : TrustData)
      → stored json fs path ≡ some d
      → IsConsistent d
      → let after = performs path methods fs in
        (d' : TrustData) × (stored json after path ≡ some d')
        × Moves methods (status d) (status d')
        × ((id : String)
            → (is_approved json id after (record { store_path = path; memory = memory })).0
              ≡ is_trusted (status d' id))
  unfolding performs
  performs-Moves path [] fs d memory s v = (
    d,
    s,
    done,
    λ id.
        is_approved_lem json id fs (record { store_path = path; memory = memory })
        ∙ (ap (λ (c : TrustData). contains_key c.approved id)
              (current_of_stored json fs path _ d refl s)
            ∙ answer d id),
  )
  performs-Moves path ((x, mine) ∷ rest) fs d memory s v =
      let (d1, s1, (v1, m)) =
        perform-After x fs (record { store_path = path; memory = mine }) d s v in
      let (d2, s2, ms, same) = performs-Moves path rest _ d1 memory s1 v1 in
      elim m [
        | inl e ↦
            (d2, s2, skip (subst (λ (t : String → Status). Moves rest t (status d2)) e ms), same)
        | inr move ↦ (d2, s2, go move ms, same)
      ]
