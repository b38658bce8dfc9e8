-- ===== src/Trust/Commands.antt =====
-- src/trust.rs: the methods behind the commands of the operator: `approve`, `revoke` and the listings.
use text.Mathlib.Text.{starts_with}
use joycast.Prelude.{String, Bool, true, Option, none, some, List, if◌then◌else◌}
use joycast.Prelude.Outcome.{Result, ok, err, Codec, ◌>>◌}
use joycast.Prelude.Map.{Map, Order, string_eq, contains_key, remove, find_key, values}
use joycast.Prelude.Sort.{sort_by}
use joycast.Prelude.Files.{FileSystem}
use Prim.Native.String.{◌++◌}
use joycast.Trust.{
  PendingClientInfo, ApprovedClientInfo, TrustData, TrustManager, reload, save, approve_match,
}

-- `order` is the order in which a hash map hands out its keys.
module _ (order : Order) where
  -- the exact id, or else some id of which `target_id` is a prefix
  unfoldable pub match_id : {V : Type 0} → Map String V → String → Option String
  match_id m target_id =
      if contains_key m target_id
      then some target_id
      else find_key order (λ id. starts_with id target_id) m

module _ (json : Codec TrustData String) (order : Order) where
  -- `approve` after its reload
  unfoldable pub approve_loaded :
      String
      → String
      → FileSystem
      → TrustManager
      → Result ApprovedClientInfo × FileSystem × TrustManager
  approve_loaded target_id now fs tm = elim (match_id order tm.memory.pending target_id) [
    | none ↦ (
      err ("No pending client request found matching ID or prefix '" ++ target_id ++ "'"),
      fs,
      tm,
    )
    | some id ↦ approve_match json id now fs tm
  ]

  -- `approve`
  unfoldable pub approve :
      String
      → String
      → FileSystem
      → TrustManager
      → Result ApprovedClientInfo × FileSystem × TrustManager
  approve target_id now fs tm = approve_loaded target_id now fs (reload json fs tm)

  -- `revoke` after its reload
  unfoldable pub revoke_loaded :
      String → FileSystem → TrustManager → Result Bool × FileSystem × TrustManager
  revoke_loaded target_id fs tm = elim (match_id order tm.memory.approved target_id) [
    | none ↦ (err ("No approved client found matching ID or prefix '" ++ target_id ++ "'"), fs, tm)
    | some id ↦
        let d = record tm.memory { approved = remove tm.memory.approved id } in
        let (r, fs') = save json fs tm.store_path d in (r >> ok true, fs', record tm { memory = d })
  ]

  -- `revoke`
  unfoldable pub revoke :
      String → FileSystem → TrustManager → Result Bool × FileSystem × TrustManager
  revoke target_id fs tm = revoke_loaded target_id fs (reload json fs tm)

  -- `list_pending`
  unfoldable pub list_pending : FileSystem → TrustManager → List PendingClientInfo × TrustManager
  list_pending fs tm =
      let tm' = reload json fs tm in
      (sort_by (λ p. p.first_seen) (values order tm'.memory.pending), tm')

  -- `list_approved`
  unfoldable pub list_approved : FileSystem → TrustManager → List ApprovedClientInfo × TrustManager
  list_approved fs tm =
      let tm' = reload json fs tm in
      (sort_by (λ a. a.approved_at) (values order tm'.memory.approved), tm')
