-- ===== src/Examples/Status.antt =====
-- `deck` waits, is approved and then revoked, and the file says so at each turn.
use joycast.Prelude.{String, ◌≡◌, refl, some, List, [], ◌∷◌}
use joycast.Trust.{TrustData, no_trust, is_approved}
use joycast.Trust.Disk.{stored}
use joycast.Trust.Status.{
  Method, registering, approving, revoking, checking, Moves, status, is_trusted,
}
use joycast.Trust.Status.Refinement.{performs, performs-Moves}
use joycast.Examples.{in_order}
use joycast.Examples.Json.{json, decode, waiting}
use joycast.Examples.Trust.{at_w, waiting-IsConsistent}

abbrev methods : List (Method × TrustData)
methods =
    (registering "c0ffee" "deck" "Pad" "Direct UDP" "2026-01-01", no_trust)
    ∷ (approving "c0f" "2026-01-02", no_trust)
    ∷ (checking "c0ffee", waiting)
    ∷ (revoking "c0", waiting)
    ∷ []

holds_waiting : stored json at_w "/t" ≡ some waiting
unfolding stored decode
holds_waiting = refl

performs-Moves_example :
    let after = performs json in_order "/t" methods at_w in
    (d' : TrustData) × (stored json after "/t" ≡ some d')
    × Moves methods (status waiting) (status d')
    × ((id : String)
        → (is_approved json id after (record { store_path = "/t"; memory = waiting })).0
          ≡ is_trusted (status d' id))
performs-Moves_example =
    performs-Moves json in_order "/t" methods at_w waiting waiting holds_waiting
      waiting-IsConsistent
