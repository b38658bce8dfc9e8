-- ===== src/Examples/Trust.antt =====
-- The trust store on one file, where `deck` waits for approval, or has it.
use mathlib.Core.List.{Perm}
use joycast.Prelude.{◌≡◌, refl, true, false}
use joycast.Prelude.Outcome.{ok}
use joycast.Prelude.Map.{string_eq, get, contains_key}
use joycast.Prelude.Sort.{IsSorted}
use joycast.Prelude.Files.{FileSystem, exists, read_to_string, write, set_content}
use joycast.Prelude.Map.{find_key, insert, remove}
use joycast.Prelude.{find}
use joycast.Prelude.Map.Values.{entry_values}
use joycast.Trust.{TrustManager, no_trust, record_pending, reload, is_approved, approve_match, save}
use joycast.Trust.Commands.{approve, list_pending, list_approved, approve_loaded, match_id}
use joycast.Trust.Disk.{current, stored}
use joycast.Trust.Approval.{Approves, approve_effect}
use joycast.Trust.Race.{register_pending_loses_update}
use joycast.Trust.Consistency.{IsConsistent, no_trust-IsConsistent, insert-IsConsistent}
use joycast.Trust.Listing.{listings}
use joycast.Trust.Unambiguous.{IsClear, approve_clear}
use text.Mathlib.Text.{starts_with}
use text.Mathlib.TextEquality.{eq_iff}
use mathlib.Core.Bool.{true≢false}
use mathlib.Core.List.{reverse, reverse_perm}
use joycast.Prelude.{String, sym, ap, ◌∙◌, Bool-cases, inl, inr, arith}
use joycast.Prelude.Map.{Order, ◌==◌}
use joycast.Examples.{in_order, only}
use joycast.Examples.Json.{json, deck, deck_ok, encode, decode, waiting, both_waiting, couch}

-- a manager that has read nothing yet
abbrev pub fresh : TrustManager
fresh = record { store_path = "/t"; memory = no_trust }

abbrev pub at_w : FileSystem
at_w = only "/t" "w"

abbrev pub at_a : FileSystem
at_a = only "/t" "a"

abbrev pub at_b : FileSystem
at_b = only "/t" "b"

approve_run : (approve json in_order "c0f" "2026-01-02" at_w fresh).0 ≡ ok deck_ok
unfolding approve approve_loaded approve_match reload exists read_to_string save write set_content
    match_id contains_key get decode encode find_key find insert remove
approve_run = refl

approve_effect_example :
    Approves "c0f" "2026-01-02" deck_ok
      (current json at_w fresh)
      (current json (approve json in_order "c0f" "2026-01-02" at_w fresh).1 fresh)
approve_effect_example =
    approve_effect json in_order "c0f" "2026-01-02" at_w fresh fresh deck_ok refl refl approve_run

couch_encoded :
    json.encode (record (current json at_w fresh) {
      pending = insert (current json at_w fresh).pending "beef" couch;
    })
    ≡ ok "b"
unfolding encode current stored read_to_string decode insert remove
couch_encoded = refl

couch_unknown : (is_approved json "beef" at_w fresh).0 ≡ false
unfolding is_approved reload exists read_to_string decode contains_key get
couch_unknown = refl

register_pending_loses_update_example :
    (is_approved json "c0ffee" (record_pending json couch at_a (reload json at_w fresh)).0 fresh).0
    ≡ (is_approved json "c0ffee" at_w fresh).0
register_pending_loses_update_example =
    register_pending_loses_update json couch at_w at_a fresh fresh "c0ffee" refl refl
      ("b", couch_encoded) refl couch_unknown

pub waiting-IsConsistent : IsConsistent waiting
unfolding insert remove contains_key get
waiting-IsConsistent = insert-IsConsistent deck no_trust no_trust-IsConsistent refl

both_waiting-IsConsistent : IsConsistent both_waiting
unfolding insert remove contains_key get
both_waiting-IsConsistent = insert-IsConsistent couch waiting waiting-IsConsistent refl

at_b-IsConsistent : IsConsistent (current json at_b fresh)
unfolding current stored read_to_string decode
at_b-IsConsistent = both_waiting-IsConsistent

listings_example :
    IsSorted (λ p. p.first_seen) (list_pending json in_order at_b fresh).0
    × Perm
        (list_pending json in_order at_b fresh).0
        (entry_values (current json at_b fresh).pending)
    × IsSorted (λ a. a.approved_at) (list_approved json in_order at_b fresh).0
    × Perm
        (list_approved json in_order at_b fresh).0
        (entry_values (current json at_b fresh).approved)
listings_example = listings json in_order at_b fresh at_b-IsConsistent

backwards : Order
backwards = record { arrange = reverse; arrange_perm = reverse_perm }

only_deck :
    (i : String)
    → contains_key both_waiting.pending i ≡ true
    → starts_with i "c0f" ≡ true
    → i ≡ "c0ffee"
unfolding contains_key get
only_deck i c s = elim (Bool-cases ("c0ffee" == i)) [
  | inl e ↦ ground (arith, eq_iff "c0ffee" i)
  | inr n ↦ elim (Bool-cases ("beef" == i)) [
    | inl e ↦
        let same : i ≡ "beef" = ground (arith, eq_iff "beef" i) in
        absurd (true≢false (sym s ∙ ap (λ (x : String). starts_with x "c0f") same))
    | inr m ↦ absurd (ground arith)
  ]
]

clear : IsClear (current json at_b fresh).pending "c0f"
unfolding current stored read_to_string decode
clear = inr (λ i j c d s t. only_deck i c s ∙ sym (only_deck j d t))

approve_clear_example :
    approve json in_order "c0f" "2026-01-02" at_b fresh
    ≡ approve json backwards "c0f" "2026-01-02" at_b fresh
approve_clear_example = approve_clear in_order backwards json "c0f" "2026-01-02" at_b fresh clear
