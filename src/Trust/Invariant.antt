-- ===== src/Trust/Invariant.antt =====
-- The rule by which the methods of src/trust.rs keep a property of the trust data, in memory and in
-- every file: the three changes that they make have to keep it.
use text.Mathlib.TextEquality.{eq_iff}
use joycast.Prelude.{
  String, ◌≡◌, sym, ap, ◌∙◌, subst, false, Option, some, arith, ◌⊎◌, inl, inr, Bool-cases,
  Option-cases,
}
use joycast.Prelude.Outcome.{Codec}
use joycast.Prelude.Map.{Order, string_eq, ◌==◌, get, contains_key, insert, remove}
use joycast.Prelude.Files.{FileSystem, read_to_string, write, set_content}
use joycast.Trust.{
  PendingClientInfo, TrustData, TrustManager, no_trust, new, Environment, move_approved, reload,
  save, record_pending, register_pending, approve_match, is_approved,
}
use joycast.Trust.Commands.{approve_loaded, revoke_loaded, match_id}
use joycast.Trust.Disk.{stored, current, current_cases, new_memory, reload_memory, stored-save}

-- The changes keep `P`, where only ids that satisfy `L` are approved.
pub record Closed (P : TrustData → Type 0) (L : String → Type 0) : Type 0 where
  pub nothing : P no_trust
  pub requests :
      (p : PendingClientInfo) (d : TrustData)
      → P d
      → contains_key d.approved p.client_id ≡ false
      → P (record d { pending = insert d.pending p.client_id p })
  pub grants :
      (id now : String) (p : PendingClientInfo) (d : TrustData)
      → P d
      → get d.pending id ≡ some p
      → L id
      → P (move_approved id p now d)
  pub withdraws :
      (id : String) (d : TrustData) → P d → P (record d { approved = remove d.approved id })

module _ (json : Codec TrustData String) where
  stored-save_any :
      (fs : FileSystem) (path other : String) (d x : TrustData)
      → stored json (save json fs path d).1 other ≡ some x
      → (x ≡ d) ⊎ (stored json fs other ≡ some x)
  unfolding save stored read_to_string write set_content
  stored-save_any fs path other d x h = elim (Bool-cases (path == other)) [
    | inl same ↦
        let e : path ≡ other = ground (arith, eq_iff path other) in
        let at_path : stored json (save json fs path d).1 path ≡ some x =
          ap (stored json (save json fs path d).1) e ∙ h in
        elim (stored-save json fs path d x at_path) [
          | inl saved ↦ inl saved
          | inr old ↦ inr (ap (stored json fs) (sym e) ∙ old)
        ]
    | inr differ ↦ inr (ground (arith))
  ]

  -- What a manager remembers, and what any file decodes to, has the property.
  pub record Holds (P : TrustData → Type 0) (fs : FileSystem) (tm : TrustManager) : Type 0 where
    pub memory : P tm.memory
    pub files : (path : String) (d : TrustData) → stored json fs path ≡ some d → P d

  module _ {P : TrustData → Type 0} {L : String → Type 0} (closed : Closed P L) where
    pub current-Holds :
        (fs : FileSystem) (tm : TrustManager) → Holds P fs tm → P (current json fs tm)
    current-Holds fs tm h = elim (current_cases json fs tm) [
      | inl e ↦ h.files tm.store_path (current json fs tm) e
      | inr e ↦ subst P (sym e) h.memory
    ]

    pub reload-Holds :
        (fs : FileSystem) (tm : TrustManager) → Holds P fs tm → Holds P fs (reload json fs tm)
    reload-Holds fs tm h = record {
      memory = subst P (sym (reload_memory json fs tm)) (current-Holds fs tm h);
      files = h.files;
    }

    save-Holds :
        (fs : FileSystem) (tm : TrustManager) (d : TrustData)
        → Holds P fs tm
        → P d
        → Holds P (save json fs tm.store_path d).1 (record tm { memory = d })
    save-Holds fs tm d h p = record {
      memory = p;
      files = λ path x e. elim (stored-save_any fs tm.store_path path d x e) [
        | inl same ↦ subst P (sym same) p
        | inr old ↦ h.files path x old
      ];
    }

    pub record_pending-Holds :
        (p : PendingClientInfo) (fs : FileSystem) (tm : TrustManager)
        → Holds P fs tm
        → Holds P (record_pending json p fs tm).0 (record_pending json p fs tm).1
    unfolding record_pending
    record_pending-Holds p fs tm h =
        elim (Bool-cases (contains_key tm.memory.approved p.client_id)) [
          | inl there ↦ rw there h
          | inr absent ↦
              let kept = save-Holds fs tm _ h (closed.requests p tm.memory h.memory absent) in
              rw absent kept
        ]

    pub register_pending-Holds :
        (client_id hostname device transport now : String) (fs : FileSystem) (tm : TrustManager)
        → Holds P fs tm
        → let r = register_pending json client_id hostname device transport now fs tm in
          Holds P r.0 r.1
    unfolding register_pending
    register_pending-Holds client_id hostname device transport now fs tm h =
        record_pending-Holds _ fs _ (reload-Holds fs tm h)

    pub is_approved-Holds :
        (client_id : String) (fs : FileSystem) (tm : TrustManager)
        → Holds P fs tm
        → Holds P fs (is_approved json client_id fs tm).1
    unfolding is_approved
    is_approved-Holds client_id fs tm h = reload-Holds fs tm h

    approve_match-Holds :
        (id now : String) (fs : FileSystem) (tm : TrustManager)
        → L id
        → Holds P fs tm
        → Holds P (approve_match json id now fs tm).1 (approve_match json id now fs tm).2
    unfolding approve_match
    approve_match-Holds id now fs tm l h = elim (Option-cases (get tm.memory.pending id)) [
      | inl e ↦ rw (e, approve_match) h
      | inr (p, e) ↦
          rw (e, approve_match)
            (save-Holds fs tm _ h (closed.grants id now p tm.memory h.memory e l))
    ]

    module _ (order : Order) where
      pub approve_loaded-Holds :
          (target now : String) (fs : FileSystem) (tm : TrustManager)
          → ((id : String) → match_id order tm.memory.pending target ≡ some id → L id)
          → Holds P fs tm
          → Holds P
              (approve_loaded json order target now fs tm).1
              (approve_loaded json order target now fs tm).2
      unfolding approve_loaded
      approve_loaded-Holds target now fs tm l h =
          elim (Option-cases (match_id order tm.memory.pending target)) [
            | inl e ↦ rw (e, approve_loaded) h
            | inr (id, e) ↦ rw (e, approve_loaded) (approve_match-Holds id now fs tm (l id e) h)
          ]

      pub revoke_loaded-Holds :
          (target : String) (fs : FileSystem) (tm : TrustManager)
          → Holds P fs tm
          → Holds P
              (revoke_loaded json order target fs tm).1
              (revoke_loaded json order target fs tm).2
      unfolding revoke_loaded
      revoke_loaded-Holds target fs tm h =
          elim (Option-cases (match_id order tm.memory.approved target)) [
            | inl e ↦ rw (e, revoke_loaded) h
            | inr (id, e) ↦
                rw (e, revoke_loaded)
                  (save-Holds fs tm _ h (closed.withdraws id tm.memory h.memory))
          ]

    -- a process that starts
    pub new-Holds :
        (env : Environment) (fs : FileSystem) (path : Option String) (tm : TrustManager)
        → Holds P fs tm
        → Holds P fs (new json env fs path)
    new-Holds env fs path tm h = record {
      memory = elim (new_memory json env fs path) [
        | inl e ↦ subst P (sym e) closed.nothing
        | inr (d, e, s) ↦ subst P (sym e) (h.files (new json env fs path).store_path d s)
      ];
      files = h.files;
    }
