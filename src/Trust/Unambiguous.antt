-- ===== src/Trust/Unambiguous.antt =====
-- `approve` and `revoke` of src/trust.rs on a text that is clear: the order in which the hash maps hand out
-- their keys does not matter.
use text.Mathlib.Text.{starts_with}
use mathlib.Core.Bool.{false≢true}
use joycast.Prelude.{
  String, ◌≡◌, refl, sym, ap, ◌∙◌, true, some, ◌⊎◌, inl, inr, Option-cases, arith,
}
use joycast.Prelude.Outcome.{Codec}
use joycast.Prelude.Map.{Map, Order, string_eq, contains_key}
use joycast.Prelude.Files.{FileSystem}
use joycast.Trust.{TrustData, TrustManager, reload}
use joycast.Trust.Commands.{match_id, approve, approve_loaded, revoke, revoke_loaded}
use joycast.Trust.Disk.{current, reload_memory}
use joycast.Trust.Approval.{match_id-holds, match_id-misses}

-- The text is an id of the map, or the beginning of one at most.
abbrev pub IsClear : {V : Type 0} → Map String V → String → Type 0
IsClear m target =
    (contains_key m target ≡ true)
    ⊎ ((i j : String)
        → contains_key m i ≡ true
        → contains_key m j ≡ true
        → starts_with i target ≡ true
        → starts_with j target ≡ true
        → i ≡ j)

module _ (o o' : Order) where
  match_id_clear :
      {V : Type 0} (m : Map String V) (target : String)
      → IsClear m target
      → match_id o m target ≡ match_id o' m target
  unfolding match_id
  match_id_clear m target (inl there) = rw there refl
  match_id_clear m target (inr only) = elim (Option-cases (match_id o m target)) [
    | inl e ↦ elim (Option-cases (match_id o' m target)) [
      | inl e' ↦ e ∙ sym e'
      | inr (j, e') ↦
          let (s, c) = match_id-holds o' m target j e' in
          absurd (false≢true (sym (match_id-misses o m target j e c) ∙ s))
    ]
    | inr (i, e) ↦
        let (s, c) = match_id-holds o m target i e in
        elim (Option-cases (match_id o' m target)) [
          | inl e' ↦ absurd (false≢true (sym (match_id-misses o' m target i e' c) ∙ s))
          | inr (j, e') ↦
              let (s', c') = match_id-holds o' m target j e' in
              e ∙ (ap (λ (x : String). some x) (only i j c c' s s') ∙ sym e')
        ]
  ]

  module _ (json : Codec TrustData String) where
    -- Where the text asked for is a pending id, or the beginning of one at most, the approval gives
    -- the same result, and leaves the same files and memory, in whatever order the maps hand out
    -- their keys.
    pub approve_clear :
        (target now : String) (fs : FileSystem) (tm : TrustManager)
        → IsClear (current json fs tm).pending target
        → approve json o target now fs tm ≡ approve json o' target now fs tm
    unfolding approve approve_loaded
    approve_clear target now fs tm clear =
        let same : match_id o (reload json fs tm).memory.pending target
            ≡ match_id o' (reload json fs tm).memory.pending target =
          rw (reload_memory json fs tm)
            (match_id_clear (current json fs tm).pending target clear) in
        ground arith

    -- The same of a revocation, among the approved ids.
    pub revoke_clear :
        (target : String) (fs : FileSystem) (tm : TrustManager)
        → IsClear (current json fs tm).approved target
        → revoke json o target fs tm ≡ revoke json o' target fs tm
    unfolding revoke revoke_loaded
    revoke_clear target fs tm clear =
        let same : match_id o (reload json fs tm).memory.approved target
            ≡ match_id o' (reload json fs tm).memory.approved target =
          rw (reload_memory json fs tm)
            (match_id_clear (current json fs tm).approved target clear) in
        ground arith
