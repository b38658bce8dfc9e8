-- ===== src/Trust/Disk.antt =====
-- What the trust file holds, and how reload and save relate to it.
use joycast.Prelude.{String, ◌≡◌, ap, true, Option, none, some, arith, ◌⊎◌, inl, inr}
use joycast.Prelude.Outcome.{ok, err, Codec, Result-cases}
use joycast.Prelude.Map.{string_eq, contains_key}
use joycast.Prelude.Files.{FileSystem, read_to_string, set_content}
use joycast.Trust.{
  no_trust, new, load, Environment, TrustData, TrustManager, reload, save, is_approved,
}
use text.Mathlib.TextPositions.{eq_refl}

module _ (json : Codec TrustData String) where
  -- the data that the file decodes to, if it can be read and decoded
  unfoldable pub stored : FileSystem → String → Option TrustData
  unfolding read_to_string
  stored fs path = elim (read_to_string fs path) [
    | ok content ↦ elim (json.decode content) [ ok d ↦ some d | err e ↦ none ]
    | err e ↦ none
  ]

  -- A manager works on what the file holds, or else on its memory.
  unfoldable pub current : FileSystem → TrustManager → TrustData
  current fs tm = elim (stored fs tm.store_path) [ some d ↦ d | none ↦ tm.memory ]

  pub reload_lem :
      (fs : FileSystem) (tm : TrustManager)
      → reload json fs tm ≡ record tm { memory = current fs tm }
  unfolding reload stored current
  reload_lem fs tm = ground arith

  pub reload_memory :
      (fs : FileSystem) (tm : TrustManager) → (reload json fs tm).memory ≡ current fs tm
  reload_memory fs tm = rw (reload_lem fs tm)

  pub reload_path :
      (fs : FileSystem) (tm : TrustManager) → (reload json fs tm).store_path ≡ tm.store_path
  reload_path fs tm = rw (reload_lem fs tm)

  pub current_of_stored :
      (fs : FileSystem) (path : String) (tm : TrustManager) (d : TrustData)
      → tm.store_path ≡ path
      → stored fs path ≡ some d
      → current fs tm ≡ d
  unfolding current
  current_of_stored fs path tm d p h = ground (arith, ap (stored fs) p)

  pub current_cases :
      (fs : FileSystem) (tm : TrustManager)
      → (stored fs tm.store_path ≡ some (current fs tm)) ⊎ (current fs tm ≡ tm.memory)
  unfolding current
  current_cases fs tm = ground arith

  -- What can be read after a save is what was saved, or what could be read before.
  pub stored-save :
      (fs : FileSystem) (path : String) (d x : TrustData)
      → stored (save json fs path d).1 path ≡ some x
      → (x ≡ d) ⊎ (stored fs path ≡ some x)
  unfolding save stored set_content
  stored-save fs path d x h = elim (Result-cases (json.encode d)) [
    | inl (text, e) ↦ ground (arith, json.decode-encode d text e, eq_refl path)
    | inr (e, h') ↦ ground arith
  ]

  pub current-record :
      (fs : FileSystem) (tm : TrustManager) (d : TrustData)
      → (current fs (record tm { memory = d }) ≡ d)
        ⊎ (current fs (record tm { memory = d }) ≡ current fs tm)
  unfolding current
  current-record fs tm d = ground arith

  pub current_idem :
      (fs : FileSystem) (tm : TrustManager) → current fs (reload json fs tm) ≡ current fs tm
  unfolding current
  current_idem fs tm = rw (reload_lem fs tm) (ground arith)

  -- A save leaves the data in a file that can be read, or fails and changes nothing.
  pub save_lem :
      (fs : FileSystem) (path : String) (d : TrustData)
      → ((fs path).readable ≡ true)
      → ((save json fs path d).0 ≡ ok tt) × (stored (save json fs path d).1 path ≡ some d)
        ⊎ ((e : String) × ((save json fs path d).0 ≡ err e) × ((save json fs path d).1 ≡ fs))
  unfolding save stored set_content
  save_lem fs path d h = elim (Result-cases (json.encode d)) [
    | inl (text, e) ↦ ground (arith, json.decode-encode d text e, eq_refl path)
    | inr (e, h') ↦ ground arith
  ]

  pub save_keeps :
      (fs : FileSystem) (path : String) (d : TrustData)
      → (fs path).readable ≡ true
      → (fs path).writable ≡ true
      → ((text : String) × (json.encode d ≡ ok text))
      → stored (save json fs path d).1 path ≡ some d
  unfolding save stored set_content
  save_keeps fs path d r w t =
      let (text, e) = t in ground (arith, json.decode-encode d text e, eq_refl path)

  pub is_approved_lem :
      (j : String) (fs : FileSystem) (tm : TrustManager)
      → (is_approved json j fs tm).0 ≡ contains_key (current fs tm).approved j
  unfolding is_approved
  is_approved_lem j fs tm = rw (reload_lem fs tm)

  -- A new manager has what its file holds, or nothing.
  pub new_memory :
      (env : Environment) (fs : FileSystem) (path : Option String)
      → ((new json env fs path).memory ≡ no_trust)
        ⊎ ((d : TrustData) × ((new json env fs path).memory ≡ d)
            × (stored fs (new json env fs path).store_path ≡ some d))
  unfolding new load stored
  new_memory env fs path = ground arith
