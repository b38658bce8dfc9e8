-- ===== src/Trust/Consistency.antt =====
-- The invariant of the trust data, and that every operation keeps it.
use joycast.Prelude.{String, ◌≡◌, true, false, some, arith}
use text.Mathlib.TextEquality.{eq_iff}
use joycast.Prelude.Outcome.{Codec}
use joycast.Prelude.Map.{Order, string_eq, get, contains_key, insert, remove}
use joycast.Prelude.Map.Laws.{
  Distinct, insert-Distinct, remove-Distinct, get-insert, get-remove, contains_key-insert,
  contains_key-remove,
}
use joycast.Prelude.Files.{FileSystem}
use joycast.Trust.{
  PendingClientInfo, ApprovedClientInfo, TrustData, TrustManager, no_trust, approval_of,
  move_approved, register_pending, is_approved,
}
use joycast.Trust.Commands.{approve, revoke}
use joycast.Trust.Invariant.{
  Closed, Holds, reload-Holds, register_pending-Holds, is_approved-Holds, approve_loaded-Holds,
  revoke_loaded-Holds,
}

-- Each client stands once and under its own id, and none is both approved and pending.
pub record IsConsistent (d : TrustData) : Type 0 where
  pub approved_once : Distinct d.approved
  pub pending_once : Distinct d.pending
  pub approved_ids :
      (k : String) (a : ApprovedClientInfo) → get d.approved k ≡ some a → a.client_id ≡ k
  pub pending_ids :
      (k : String) (p : PendingClientInfo) → get d.pending k ≡ some p → p.client_id ≡ k
  pub apart : (k : String) → contains_key d.approved k ≡ true → contains_key d.pending k ≡ false

pub no_trust-IsConsistent : IsConsistent no_trust
unfolding get contains_key
no_trust-IsConsistent = record {
  approved_once = tt;
  pending_once = tt;
  approved_ids = λ k a h. cc;
  pending_ids = λ k p h. cc;
  apart = λ k h. cc;
}

-- the change that `register_pending` makes
pub insert-IsConsistent :
    (p : PendingClientInfo) (d : TrustData)
    → IsConsistent d
    → contains_key d.approved p.client_id ≡ false
    → IsConsistent (record d { pending = insert d.pending p.client_id p })
insert-IsConsistent p d v new = record {
  approved_once = v.approved_once;
  pending_once = insert-Distinct d.pending p.client_id p v.pending_once;
  approved_ids = v.approved_ids;
  pending_ids = λ k q h.
      ground (arith, get-insert d.pending p.client_id k p, v.pending_ids k q, eq_iff p.client_id k);
  apart = λ k h.
      ground
        (arith, contains_key-insert d.pending p.client_id k p, v.apart k, eq_iff p.client_id k);
}

-- the change that `approve` makes
move_approved-IsConsistent :
    (id now : String) (p : PendingClientInfo) (d : TrustData)
    → IsConsistent d
    → get d.pending id ≡ some p
    → IsConsistent (move_approved id p now d)
unfolding move_approved
move_approved-IsConsistent id now p d v e = record {
  approved_once = insert-Distinct d.approved id (approval_of p now) v.approved_once;
  pending_once = remove-Distinct d.pending id v.pending_once;
  approved_ids = λ k a h. ground (
    arith,
    get-insert d.approved id k (approval_of p now),
    v.approved_ids k a,
    v.pending_ids id p,
    eq_iff id k,
  );
  pending_ids = λ k q h. ground (arith, get-remove d.pending id k, v.pending_ids k q);
  apart = λ k h. ground (
    arith,
    contains_key-insert d.approved id k (approval_of p now),
    contains_key-remove d.pending id k,
    v.apart k,
  );
}

-- the change that `revoke` makes
remove-IsConsistent :
    (id : String) (d : TrustData)
    → IsConsistent d
    → IsConsistent (record d { approved = remove d.approved id })
remove-IsConsistent id d v = record {
  approved_once = remove-Distinct d.approved id v.approved_once;
  pending_once = v.pending_once;
  approved_ids = λ k a h. ground (arith, get-remove d.approved id k, v.approved_ids k a);
  pending_ids = v.pending_ids;
  apart = λ k h. ground (arith, contains_key-remove d.approved id k, v.apart k);
}

pub IsConsistent-Closed : (L : String → Type 0) → Closed IsConsistent L
IsConsistent-Closed L = record {
  nothing = no_trust-IsConsistent;
  requests = insert-IsConsistent;
  grants = λ id now p d v e l. move_approved-IsConsistent id now p d v e;
  withdraws = remove-IsConsistent;
}

module _ (json : Codec TrustData String) where
  -- What a manager remembers, and what any file decodes to, is consistent.
  abbrev pub IsSound : FileSystem → TrustManager → Type 0
  IsSound fs tm = Holds json IsConsistent fs tm

  module _ (order : Order) where
    -- Every method keeps the invariant of the manager and of its file: recording a request,
    -- approving and revoking, whether they succeed or fail, and the test for approval.
    pub operations-IsSound :
        (target hostname device transport now : String) (fs : FileSystem) (tm : TrustManager)
        → IsSound fs tm
        → (let r = register_pending json target hostname device transport now fs tm in
            IsSound r.0 r.1)
          × (let r = approve json order target now fs tm in IsSound r.1 r.2)
          × (let r = revoke json order target fs tm in IsSound r.1 r.2)
          × IsSound fs (is_approved json target fs tm).1
    unfolding approve revoke
    operations-IsSound target hostname device transport now fs tm s =
        let closed = IsConsistent-Closed (λ id. Unit {0}) in
        let loaded = reload-Holds json closed fs tm s in
        (
          register_pending-Holds json closed target hostname device transport now fs tm s,
          approve_loaded-Holds json closed order target now fs _ (λ id e. tt) loaded,
          revoke_loaded-Holds json closed order target fs _ loaded,
          is_approved-Holds json closed target fs tm s,
        )
