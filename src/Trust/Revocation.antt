-- ===== src/Trust/Revocation.antt =====
-- `revoke` of src/trust.rs: which client loses its approval, and that every process sees it.
use text.Mathlib.Text.{starts_with}
use joycast.Prelude.{
  String, ◌≡◌, refl, sym, ◌∙◌, subst₂, Bool, true, false, some, if◌then◌else◌, arith, inl, inr,
  Option-cases,
}
use joycast.Prelude.Outcome.{ok, err, Codec}
use joycast.Prelude.Map.{Order, string_eq, ◌==◌, contains_key, remove}
use joycast.Prelude.Map.Laws.{contains_key-remove}
use joycast.Prelude.Files.{FileSystem}
use joycast.Trust.{TrustData, TrustManager, reload, save}
use joycast.Trust.Commands.{match_id, revoke, revoke_loaded}
use joycast.Trust.Disk.{stored, current, reload_memory, reload_path, current_of_stored, save_lem}
use joycast.Trust.Approval.{match_id-holds}

-- What a revocation does: one approved client, whose id begins with the text asked for, is approved
-- no longer; the approval of every other client and all that is pending stay.
pub record Revokes (target : String) (before after : TrustData) : Type 0 where
  pub id : String
  pub matches : starts_with id target ≡ true
  pub was_approved : contains_key before.approved id ≡ true
  pub approved :
      (j : String)
      → contains_key after.approved j ≡ (if id == j then false else contains_key before.approved j)
  pub pending : after.pending ≡ before.pending

module _ (json : Codec TrustData String) (order : Order) where
  revoke_loaded_lem :
      (target : String) (fs : FileSystem) (tm : TrustManager) (b : Bool)
      → (fs tm.store_path).readable ≡ true
      → (revoke_loaded json order target fs tm).0 ≡ ok b
      → (d : TrustData) × Revokes target tm.memory d
        × (stored json (revoke_loaded json order target fs tm).1 tm.store_path ≡ some d)
  unfolding revoke_loaded
  revoke_loaded_lem target fs tm b r h =
      elim (Option-cases (match_id order tm.memory.approved target)) [
        | inl e ↦ absurd (ground arith)
        | inr (id, e) ↦
            let (m, c) = match_id-holds order tm.memory.approved target id e in
            let d : TrustData = record tm.memory { approved = remove tm.memory.approved id } in
            elim (save_lem json fs tm.store_path d r) [
              | inl (o, s) ↦ (
                d,
                record {
                  id = id;
                  matches = m;
                  was_approved = c;
                  approved = λ j. contains_key-remove tm.memory.approved id j;
                  pending = refl;
                },
                ground arith,
              )
              | inr (x, o, s) ↦ absurd (ground arith)
            ]
      ]

  -- A revocation that succeeds is seen by every manager on the same file: after it, what they work
  -- on differs from what the revoking manager worked on by one approval, under an id that begins
  -- with `target`. The file can be read.
  pub revoke_effect :
      (target : String) (fs : FileSystem) (tm other : TrustManager) (b : Bool)
      → (fs tm.store_path).readable ≡ true
      → other.store_path ≡ tm.store_path
      → (revoke json order target fs tm).0 ≡ ok b
      → Revokes target (current json fs tm) (current json (revoke json order target fs tm).1 other)
  unfolding revoke
  revoke_effect target fs tm other b r p h =
      let same = reload_path json fs tm in
      let (d, s, f) = revoke_loaded_lem target fs (reload json fs tm) b (rw same r) h in
      let seen = current_of_stored json _ (reload json fs tm).store_path other d (p ∙ sym same) f in
      subst₂ (Revokes target) (reload_memory json fs tm) (sym seen) s

  -- A revocation that fails leaves every file as it was.
  pub revoke_err :
      (target : String) (fs : FileSystem) (tm : TrustManager) (e : String)
      → (revoke json order target fs tm).0 ≡ err e
      → (revoke json order target fs tm).1 ≡ fs
  unfolding revoke revoke_loaded save
  revoke_err target fs tm e h = ground arith
