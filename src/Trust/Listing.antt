-- ===== src/Trust/Listing.antt =====
-- `list_pending` and `list_approved` of src/trust.rs.
use mathlib.Core.List.{Perm}
use mathlib.Core.List.Perm
use joycast.Prelude.{String}
use joycast.Prelude.Outcome.{Codec}
use joycast.Prelude.Map.{Order, string_eq}
use joycast.Prelude.Map.Values.{entry_values, values-perm}
use joycast.Prelude.Files.{FileSystem}
use joycast.Prelude.Sort.{IsSorted, sort_by-perm, sort_by-IsSorted}
use joycast.Trust.{TrustData, TrustManager, reload}
use joycast.Trust.Commands.{list_pending, list_approved}
use joycast.Trust.Disk.{current, reload_memory}
use joycast.Trust.Consistency.{IsConsistent}

module _ (json : Codec TrustData String) (order : Order) where
  -- The listings hold each client that waits, or is approved, exactly once, by the time of the
  -- request or of the approval, whatever order the maps hand out their keys. The trust data is
  -- consistent.
  pub listings :
      (fs : FileSystem) (tm : TrustManager)
      → IsConsistent (current json fs tm)
      → IsSorted (λ p. p.first_seen) (list_pending json order fs tm).0
        × Perm (list_pending json order fs tm).0 (entry_values (current json fs tm).pending)
        × IsSorted (λ a. a.approved_at) (list_approved json order fs tm).0
        × Perm (list_approved json order fs tm).0 (entry_values (current json fs tm).approved)
  unfolding list_pending list_approved
  listings fs tm v =
      let loaded = reload_memory json fs tm in
      let w : IsConsistent (reload json fs tm).memory = rw loaded v in
      rw (← loaded) (
        sort_by-IsSorted _ _,
        Perm.trans (sort_by-perm _ _) (values-perm order _ w.pending_once),
        sort_by-IsSorted _ _,
        Perm.trans (sort_by-perm _ _) (values-perm order _ w.approved_once),
      )
