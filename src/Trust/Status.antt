-- ===== src/Trust/Status.antt =====
-- What the trust file promises: each client is unknown, waiting or trusted, and goes from one to the
-- next by a request, an approval or a revocation. The methods of src/trust.rs, one at a time and from
-- whatever process, do nothing else to it.
pub mod Refinement
use text.Mathlib.Text.{starts_with}
use text.Mathlib.TextEquality.{eq_iff}
use std.Path.{fun_ext}
use joycast.Prelude.{
  String, ◌≡◌, refl, sym, ap, ◌∙◌, subst, Bool, true, false, Option, none, some, List, [], ◌∷◌,
  arith, ◌⊎◌, inl, inr, Bool-cases, Option-cases, if◌then◌else◌,
}
use joycast.Prelude.Outcome.{ok, err, Codec}
use joycast.Prelude.Map.{Order, string_eq, ◌==◌, get, contains_key, insert, remove}
use joycast.Prelude.Map.Laws.{contains_key-insert, contains_key-remove}
use joycast.Prelude.Files.{FileSystem}
use joycast.Trust.{
  PendingClientInfo, TrustData, TrustManager, move_approved, approval_of, reload, save,
  record_pending, register_pending, approve_match, is_approved,
}
use joycast.Trust.Commands.{approve_loaded, approve, revoke_loaded, revoke, match_id}
use joycast.Trust.Disk.{stored, current, reload_lem, current_of_stored, save_lem, is_approved_lem}
use joycast.Trust.Approval.{match_id-holds}
use joycast.Trust.Consistency.{IsConsistent, IsConsistent-Closed}

pub data Status : Type 0 where
  unknown waiting trusted : Status

-- what the trust data says of each client
unfoldable pub status : TrustData → String → Status
status d id =
    if contains_key d.approved id
    then trusted
    else if contains_key d.pending id
    then waiting
    else unknown

unfoldable pub is_trusted : Status → Bool
is_trusted trusted = true
is_trusted _ = false

abbrev pub update : (String → Status) → String → Status → String → Status
update s id x j = if id == j then x else s j

-- a method, with its arguments
pub data Method : Type 0 where
  registering : (client_id hostname device_name transport now : String) → Method
  approving : (target_id now : String) → Method
  revoking : (target_id : String) → Method
  checking : (client_id : String) → Method

-- what a method may do
pub data Move (s : String → Status) : Method → (String → Status) → Type 0 where
  request :
      {hostname device_name transport now : String} (id : String)
      → s id ≡ unknown
      → Move s (registering id hostname device_name transport now) (update s id waiting)
  grant :
      {target_id now : String} (id : String)
      → starts_with id target_id ≡ true
      → s id ≡ waiting
      → Move s (approving target_id now) (update s id trusted)
  withdraw :
      {target_id : String} (id : String)
      → starts_with id target_id ≡ true
      → s id ≡ trusted
      → Move s (revoking target_id) (update s id unknown)

-- Each method makes one move of its own, or none. It comes with the memory of its manager.
pub data Moves : List (Method × TrustData) → (String → Status) → (String → Status) → Type 0 where
  done : {s : String → Status} → Moves [] s s
  skip :
      {x : Method} {memory : TrustData} {l : List (Method × TrustData)} {s t : String → Status}
      → Moves l s t
      → Moves ((x, memory) ∷ l) s t
  go :
      {x : Method} {memory : TrustData} {l : List (Method × TrustData)} {s t u : String → Status}
      → Move s x t
      → Moves l t u
      → Moves ((x, memory) ∷ l) s u

pub answer : (d : TrustData) (id : String) → contains_key d.approved id ≡ is_trusted (status d id)
unfolding status is_trusted
answer d id = ground arith

-- one move of the method, or none
abbrev pub Next : Method → TrustData → TrustData → Type 0
Next x d d' = IsConsistent d' × ((status d' ≡ status d) ⊎ Move (status d) x (status d'))

status-request :
    (d : TrustData) (p : PendingClientInfo) (j : String)
    → contains_key d.approved p.client_id ≡ false
    → status (record d { pending = insert d.pending p.client_id p }) j
      ≡ update (status d) p.client_id waiting j
unfolding status
status-request d p j h =
    ground (arith, contains_key-insert d.pending p.client_id j p, eq_iff p.client_id j)

status-grant :
    (d : TrustData) (id now : String) (p : PendingClientInfo) (j : String)
    → status (move_approved id p now d) j ≡ update (status d) id trusted j
unfolding status move_approved
status-grant d id now p j = ground (
  arith,
  contains_key-insert d.approved id j (approval_of p now),
  contains_key-remove d.pending id j,
)

status-withdraw :
    (d : TrustData) (id j : String)
    → contains_key d.pending id ≡ false
    → status (record d { approved = remove d.approved id }) j ≡ update (status d) id unknown j
unfolding status
status-withdraw d id j h = ground (arith, contains_key-remove d.approved id j, eq_iff id j)

moved :
    (x : Method) (d d' : TrustData) (s : String → Status)
    → ((j : String) → status d' j ≡ s j)
    → Move (status d) x s
    → Move (status d) x (status d')
moved x d d' s e m = subst (Move (status d) x) (sym (fun_ext e)) m

pub unmoved : (x : Method) (d : TrustData) → IsConsistent d → Next x d d
unmoved x d v = (v, inl refl)

pub request-Next :
    (hostname device_name transport now : String) (p : PendingClientInfo) (d : TrustData)
    → IsConsistent d
    → contains_key d.approved p.client_id ≡ false
    → Next
        (registering p.client_id hostname device_name transport now)
        d
        (record d { pending = insert d.pending p.client_id p })
unfolding status
request-Next hostname device_name transport now p d v h =
    let kept = (IsConsistent-Closed (λ id. Unit {0})).requests p d v h in
    elim (Bool-cases (contains_key d.pending p.client_id)) [
      | inl old ↦
          (kept, inl (fun_ext (λ j. status-request d p j h ∙ ground (arith, eq_iff p.client_id j))))
      | inr fresh ↦ (
        kept,
        inr (moved _ d _ _ (λ j. status-request d p j h) (request p.client_id (ground arith))),
      )
    ]

pub grant-Next :
    (target id now : String) (p : PendingClientInfo) (d : TrustData)
    → IsConsistent d
    → starts_with id target ≡ true
    → get d.pending id ≡ some p
    → Next (approving target now) d (move_approved id p now d)
unfolding status contains_key
grant-Next target id now p d v m e =
    let kept = (IsConsistent-Closed (λ id. Unit {0})).grants id now p d v e tt in
    (kept, inr (moved _ d _ _ (status-grant d id now p) (grant id m (ground (arith, v.apart id)))))

pub withdraw-Next :
    (target id : String) (d : TrustData)
    → IsConsistent d
    → starts_with id target ≡ true
    → contains_key d.approved id ≡ true
    → Next (revoking target) d (record d { approved = remove d.approved id })
unfolding status
withdraw-Next target id d v m c =
    let kept = (IsConsistent-Closed (λ id. Unit {0})).withdraws id d v in
    (
      kept,
      inr (
          moved _ d _ _ (λ j. status-withdraw d id j (v.apart id c))
            (withdraw id m (ground arith))),
    )
