-- ===== src/Trust/Enrolment.antt =====
-- The way of a client into the trust file of src/trust.rs: its request, and the approval that the
-- operator is told to give.
use joycast.Prelude.{
  String, ◌≡◌, refl, sym, ◌∙◌, ap, subst, true, false, some, arith, inl, inr, Bool-cases,
}
use joycast.Prelude.Outcome.{ok, Codec}
use joycast.Prelude.Map.{Map, Order, string_eq, get, contains_key, eq_self}
use joycast.Prelude.Map.Laws.{contains_key-insert, get-insert}
use joycast.Prelude.Files.{FileSystem, write, set_content}
use joycast.Trust.{
  PendingClientInfo, TrustData, TrustManager, reload, save, register_pending, record_pending,
  approve_match, approval_of, move_approved, is_approved,
}
use joycast.Trust.Commands.{match_id, approve, approve_loaded}
use joycast.Trust.Disk.{
  stored, current, reload_lem, reload_memory, reload_path, current_idem, current_of_stored,
  save_keeps, is_approved_lem,
}
use joycast.Trust.Registration.{request, requested, current-register_pending}

match_id_exact :
    (order : Order) {V : Type 0} (m : Map String V) (id : String)
    → contains_key m id ≡ true
    → match_id order m id ≡ some id
unfolding match_id
match_id_exact order m id h = rw h refl

move_approved_contains :
    (id now : String) (p : PendingClientInfo) (d : TrustData)
    → contains_key (move_approved id p now d).approved id ≡ true
unfolding move_approved
move_approved_contains id now p d =
    contains_key-insert d.approved id id (approval_of p now) ∙ rw (eq_self id) refl

module _ (json : Codec TrustData String) where
  save_access :
      (fs : FileSystem) (file path : String) (d : TrustData)
      → (((save json fs file d).1 path).readable ≡ (fs path).readable)
        × (((save json fs file d).1 path).writable ≡ (fs path).writable)
  unfolding save write set_content
  save_access fs file path d = ground arith

  -- A request changes who may read and write no file, and keeps the manager's path.
  pub register_pending_access :
      (client_id hostname device transport now path : String) (fs : FileSystem) (tm : TrustManager)
      → let after = register_pending json client_id hostname device transport now fs tm in
        ((after.0 path).readable ≡ (fs path).readable)
        × ((after.0 path).writable ≡ (fs path).writable)
        × (after.1.store_path ≡ tm.store_path)
  unfolding register_pending record_pending
  register_pending_access client_id hostname device transport now path fs tm =
      let here = reload json fs tm in
      elim (Bool-cases (contains_key here.memory.approved client_id)) [
        | inl there ↦ rw there (refl, refl, reload_path json fs tm)
        | inr absent ↦
            let (r, w) = save_access fs here.store_path path _ in
            rw absent (r, w, reload_path json fs tm)
      ]

  save_ok :
      (fs : FileSystem) (path : String) (d : TrustData)
      → (fs path).writable ≡ true
      → ((text : String) × (json.encode d ≡ ok text))
      → (save json fs path d).0 ≡ ok tt
  unfolding save write
  save_ok fs path d w t = let (text, e) = t in ground arith

  approve_match_lem :
      (id now : String) (info : PendingClientInfo) (fs : FileSystem) (tm : TrustManager)
      → get tm.memory.pending id ≡ some info
      → (fs tm.store_path).readable ≡ true
      → (fs tm.store_path).writable ≡ true
      → ((text : String) × (json.encode (move_approved id info now tm.memory) ≡ ok text))
      → ((approve_match json id now fs tm).0 ≡ ok (approval_of info now))
        × (stored json (approve_match json id now fs tm).1 tm.store_path
            ≡ some (move_approved id info now tm.memory))
  unfolding approve_match
  approve_match_lem id now info fs tm g r w t =
      let d = move_approved id info now tm.memory in
      let written = save_ok fs tm.store_path d w t in
      rw (g, approve_match) (rw written refl, save_keeps json fs tm.store_path d r w t)

module _ (json : Codec TrustData String) (order : Order) where
  -- The data can be serialised, with the request of a client and then with its approval.
  abbrev pub CanEnrol : PendingClientInfo → String → TrustData → Type 0
  CanEnrol p later d =
      ((text : String) × (json.encode (requested p d) ≡ ok text))
      × ((text : String) × (json.encode (move_approved p.client_id p later (requested p d))
            ≡ ok text))

  -- An approval by the whole id approves this client.
  approve_exact :
      (id now : String) (info : PendingClientInfo) (fs : FileSystem) (tm : TrustManager)
      → get (current json fs tm).pending id ≡ some info
      → (fs tm.store_path).readable ≡ true
      → (fs tm.store_path).writable ≡ true
      → ((text : String) × (json.encode (move_approved id info now (current json fs tm)) ≡ ok text))
      → ((approve json order id now fs tm).0 ≡ ok (approval_of info now))
        × (stored json (approve json order id now fs tm).1 tm.store_path
            ≡ some (move_approved id info now (current json fs tm)))
  unfolding approve approve_loaded contains_key
  approve_exact id now info fs tm g r w t =
      let before = current json fs tm in
      let there : contains_key before.pending id ≡ true = rw g refl in
      rw (reload_lem json fs tm) (
        rw (match_id_exact order before.pending id there, approve_loaded)
          (approve_match_lem json id now info fs (record tm { memory = before }) g r w t))

  -- A client that is not approved asks, and the operator approves it by its whole id: that succeeds,
  -- for this client, and every manager on the file then approves it.
  pub enrolment :
      (client_id hostname device transport now later : String) (fs : FileSystem)
      (tm operator other : TrustManager)
      → (fs tm.store_path).readable ≡ true
      → (fs tm.store_path).writable ≡ true
      → CanEnrol (request client_id hostname device transport now) later (current json fs tm)
      → operator.store_path ≡ tm.store_path
      → other.store_path ≡ tm.store_path
      → (is_approved json client_id fs tm).0 ≡ false
      → let files = (register_pending json client_id hostname device transport now fs tm).0 in
        let after = approve json order client_id later files operator in
        (after.0
          ≡ ok (record {
            client_id = client_id;
            hostname = hostname;
            device_name = device;
            approved_at = later;
          }))
        × ((is_approved json client_id after.1 other).0 ≡ true)
  unfolding approval_of
  enrolment client_id hostname device transport now later fs tm operator other r w t po px a =
      let p = request client_id hostname device transport now in
      let after = register_pending json client_id hostname device transport now fs tm in
      let (ra, wa, _) =
        register_pending_access json client_id hostname device transport now operator.store_path fs
          tm in
      let seen =
        current-register_pending json client_id hostname device transport now fs tm operator r w t.0
          po a in
      let entered : get (current json after.0 operator).pending client_id ≡ some p =
        ap (λ (d : TrustData). get d.pending client_id) seen
        ∙ (get-insert (current json fs tm).pending client_id client_id p
            ∙ rw (eq_self client_id) refl) in
      let (done, file) =
        approve_exact client_id later p after.0 operator entered (ra ∙ rw po r) (wa ∙ rw po w) (
          subst
            (λ (d : TrustData).
              (text : String) × (json.encode (move_approved client_id p later d) ≡ ok text))
            (sym seen) t.1) in
      (
        done,
        is_approved_lem json client_id _ other
            ∙ ap (λ (d : TrustData). contains_key d.approved client_id)
                (current_of_stored json _ operator.store_path other _ (px ∙ sym po) file)
            ∙ move_approved_contains client_id later p _,
      )

  -- The same as the listeners do it: the request is recorded by the manager that has just found the
  -- client not approved, and it is this manager that is asked again.
  pub checked_enrolment :
      (client_id hostname device transport now later : String) (fs : FileSystem)
      (tm operator : TrustManager)
      → (fs tm.store_path).readable ≡ true
      → (fs tm.store_path).writable ≡ true
      → CanEnrol (request client_id hostname device transport now) later (current json fs tm)
      → operator.store_path ≡ tm.store_path
      → (is_approved json client_id fs tm).0 ≡ false
      → let seen = (is_approved json client_id fs tm).1 in
        let entered = register_pending json client_id hostname device transport now fs seen in
        let after = approve json order client_id later entered.0 operator in
        (after.0
          ≡ ok (record {
            client_id = client_id;
            hostname = hostname;
            device_name = device;
            approved_at = later;
          }))
        × ((is_approved json client_id after.1 entered.1).0 ≡ true)
  unfolding is_approved
  checked_enrolment client_id hostname device transport now later fs tm operator r w t po a =
      let path = reload_path json fs tm in
      let again : contains_key (reload json fs (reload json fs tm)).memory.approved client_id
          ≡ false =
        rw
          (
            reload_memory json fs (reload json fs tm),
            current_idem json fs tm,
            ← reload_memory json fs tm,
          )
          a in
      let (_, _, kept) =
        register_pending_access json client_id hostname device transport now "" fs
          (reload json fs tm) in
      enrolment client_id hostname device transport now later fs (reload json fs tm) operator _
        (rw path r) (rw path w)
        (subst (CanEnrol (request client_id hostname device transport now) later)
          (sym (current_idem json fs tm)) t)
        (po ∙ sym path) kept again
