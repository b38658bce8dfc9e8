-- ===== src/Trust/Approval.antt =====
-- `approve` of src/trust.rs: which client it approves, and that every process sees it.
use text.Mathlib.Text.{starts_with}
use text.Mathlib.TextPositions.{starts_with_of_prefix}
use text.Mathlib.TextLemmas.{append-nil}
use joycast.Prelude.{
  String, ◌≡◌, refl, sym, ◌∙◌, ap, subst, subst₂, true, false, none, some, if◌then◌else◌, arith,
  inl, inr, Option-cases, Bool-cases,
}
use mathlib.Core.Bool.{false≢true}
use joycast.Prelude.Outcome.{ok, err, Codec}
use joycast.Prelude.Map.{Map, Order, string_eq, ◌==◌, get, contains_key}
use joycast.Prelude.Map.Laws.{get-remove, contains_key-insert}
use joycast.Prelude.Map.Search.{find_key-holds, find_key-misses}
use joycast.Prelude.Files.{FileSystem}
use joycast.Trust.{
  PendingClientInfo, ApprovedClientInfo, TrustData, TrustManager, reload, save, approve_match,
  approval_of, move_approved,
}
use joycast.Trust.Commands.{match_id, approve, approve_loaded}
use joycast.Trust.Disk.{stored, current, reload_memory, reload_path, current_of_stored, save_lem}

starts_with_self : (s : String) → starts_with s s ≡ true
starts_with_self s = starts_with_of_prefix s s ("", append-nil s)

module _ (order : Order) where
  -- A matched id is a key of the map that begins with the text asked for.
  pub match_id-holds :
      {V : Type 0} (m : Map String V) (target id : String)
      → match_id order m target ≡ some id
      → (starts_with id target ≡ true) × (contains_key m id ≡ true)
  unfolding match_id
  match_id-holds m target id h = elim (Bool-cases (contains_key m target)) [
    | inl there ↦ ground (arith, starts_with_self target)
    | inr absent ↦ find_key-holds order (λ k. starts_with k target) m id (ground arith)
  ]

  -- Where nothing matches, no key begins with the text asked for.
  pub match_id-misses :
      {V : Type 0} (m : Map String V) (target j : String)
      → match_id order m target ≡ none
      → contains_key m j ≡ true
      → starts_with j target ≡ false
  unfolding match_id
  match_id-misses m target j h c =
      find_key-misses order (λ k. starts_with k target) m j (ground arith) c

-- What an approval does: one pending client, whose id begins with the text asked for, moves from
-- the pending to the approved clients, and every other client stays where it was.
pub record Approves (target now : String) (a : ApprovedClientInfo) (before after : TrustData)
    : Type 0 where
  pub id : String
  pub info : PendingClientInfo
  pub matches : starts_with id target ≡ true
  pub was_pending : get before.pending id ≡ some info
  pub granted : a ≡ record {
    client_id = info.client_id;
    hostname = info.hostname;
    device_name = info.device_name;
    approved_at = now;
  }
  pub approved :
      (j : String)
      → contains_key after.approved j ≡ (if id == j then true else contains_key before.approved j)
  pub pending :
      (j : String) → get after.pending j ≡ (if id == j then none else get before.pending j)

move_approved-Approves :
    (target now id : String) (info : PendingClientInfo) (d : TrustData)
    → starts_with id target ≡ true
    → get d.pending id ≡ some info
    → Approves target now (approval_of info now) d (move_approved id info now d)
unfolding move_approved
move_approved-Approves target now id info d m w = record {
  id = id;
  info = info;
  matches = m;
  was_pending = w;
  granted = refl;
  approved = λ j. contains_key-insert d.approved id j (approval_of info now);
  pending = λ j. get-remove d.pending id j;
}

pub get_of_contains :
    {V : Type 0} (m : Map String V) (k : String)
    → contains_key m k ≡ true
    → (v : V) × (get m k ≡ some v)
unfolding contains_key
get_of_contains m k h = elim (Option-cases (get m k)) [
  | inl e ↦ absurd (false≢true (rw e at h))
  | inr found ↦ found
]

module _ (json : Codec TrustData String) (order : Order) where
  approve_match_lem :
      (target id now : String) (fs : FileSystem) (tm : TrustManager) (a : ApprovedClientInfo)
      → starts_with id target ≡ true
      → contains_key tm.memory.pending id ≡ true
      → (fs tm.store_path).readable ≡ true
      → (approve_match json id now fs tm).0 ≡ ok a
      → (d : TrustData) × Approves target now a tm.memory d
        × (stored json (approve_match json id now fs tm).1 tm.store_path ≡ some d)
  unfolding approve_match
  approve_match_lem target id now fs tm a m c r h =
      let (info, e) = get_of_contains tm.memory.pending id c in
      elim (save_lem json fs tm.store_path (move_approved id info now tm.memory) r) [
        | inl (o, s) ↦ (
          move_approved id info now tm.memory,
          subst
              (λ (x : ApprovedClientInfo).
                Approves target now x tm.memory (move_approved id info now tm.memory))
              (ground arith) (move_approved-Approves target now id info tm.memory m e),
          ground arith,
        )
        | inr (x, o, s) ↦ absurd (ground arith)
      ]

  approve_loaded_lem :
      (target now : String) (fs : FileSystem) (tm : TrustManager) (a : ApprovedClientInfo)
      → (fs tm.store_path).readable ≡ true
      → (approve_loaded json order target now fs tm).0 ≡ ok a
      → (d : TrustData) × Approves target now a tm.memory d
        × (stored json (approve_loaded json order target now fs tm).1 tm.store_path ≡ some d)
  unfolding approve_loaded
  approve_loaded_lem target now fs tm a r h =
      elim (Option-cases (match_id order tm.memory.pending target)) [
        | inl e ↦ absurd (ground arith)
        | inr (id, e) ↦
            let (m, c) = match_id-holds order tm.memory.pending target id e in
            let (d, s, f) = approve_match_lem target id now fs tm a m c r (ground arith) in
            (d, s, ground arith)
      ]

  -- An approval that succeeds is seen by every manager on the same file (the running server beside
  -- the command line): after it, what they work on differs from what the approving manager worked
  -- on by the move of one client, pending under an id that begins with `target`. The file can be
  -- read.
  pub approve_effect :
      (target now : String) (fs : FileSystem) (tm other : TrustManager) (a : ApprovedClientInfo)
      → (fs tm.store_path).readable ≡ true
      → other.store_path ≡ tm.store_path
      → (approve json order target now fs tm).0 ≡ ok a
      → Approves target now a
          (current json fs tm)
          (current json (approve json order target now fs tm).1 other)
  unfolding approve
  approve_effect target now fs tm other a r p h =
      let same = reload_path json fs tm in
      let (d, s, f) = approve_loaded_lem target now fs (reload json fs tm) a (rw same r) h in
      let seen = current_of_stored json _ (reload json fs tm).store_path other d (p ∙ sym same) f in
      subst₂ (Approves target now a) (reload_memory json fs tm) (sym seen) s

  save_err :
      (fs : FileSystem) (path : String) (d : TrustData) (e : String)
      → (save json fs path d).0 ≡ err e
      → (save json fs path d).1 ≡ fs
  unfolding save
  save_err fs path d e h = ground arith

  -- An approval that fails, for want of a match or because the file cannot be written, leaves every
  -- file as it was.
  pub approve_err :
      (target now : String) (fs : FileSystem) (tm : TrustManager) (e : String)
      → (approve json order target now fs tm).0 ≡ err e
      → (approve json order target now fs tm).1 ≡ fs
  unfolding approve approve_loaded approve_match save
  approve_err target now fs tm e h = ground arith

  match_id-some :
      {V : Type 0} (m : Map String V) (target j : String)
      → contains_key m j ≡ true
      → starts_with j target ≡ true
      → (id : String) × (match_id order m target ≡ some id)
  match_id-some m target j c s = elim (Option-cases (match_id order m target)) [
    | inl e ↦ absurd (false≢true (sym (match_id-misses order m target j e c) ∙ s))
    | inr found ↦ found
  ]

  -- If some pending id begins with the text asked for, the file can be written and the data that
  -- approving any of the pending clients leaves can be serialised, the approval succeeds.
  pub approve_succeeds :
      (target now j : String) (fs : FileSystem) (tm : TrustManager)
      → contains_key (current json fs tm).pending j ≡ true
      → starts_with j target ≡ true
      → (fs tm.store_path).writable ≡ true
      → ((id : String) (p : PendingClientInfo)
          → get (current json fs tm).pending id ≡ some p
          → (text : String) × (json.encode (move_approved id p now (current json fs tm)) ≡ ok text))
      → (a : ApprovedClientInfo) × ((approve json order target now fs tm).0 ≡ ok a)
  unfolding approve approve_loaded approve_match save
  approve_succeeds target now j fs tm c s w t =
      let before = (reload json fs tm).memory in
      let c' : contains_key before.pending j ≡ true = rw (reload_memory json fs tm) c in
      let w' : (fs (reload json fs tm).store_path).writable ≡ true =
        rw (reload_path json fs tm) w in
      let (id, e) = match_id-some before.pending target j c' s in
      let (m, k) = match_id-holds order before.pending target id e in
      let (info, g) = get_of_contains before.pending id k in
      let same = reload_memory json fs tm in
      let (text, x) = t id info (ap (λ (d : TrustData). get d.pending id) (sym same) ∙ g) in
      let x' : json.encode (move_approved id info now before) ≡ ok text = rw same x in
      (approval_of info now, ground arith)
