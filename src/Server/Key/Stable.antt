-- ===== src/Server/Key/Stable.antt =====
-- The node id of the server stays the same when it starts again.
use text.Mathlib.TextEquality.{eq_iff}
use text.Mathlib.TextPositions.{eq_refl}
use mathlib.Core.List.{◌++◌}
use joycast.Prelude.{
  ℕ, String, ◌≡◌, refl, subst, ◌||◌, true, false, none, some, List, [], ◌∷◌, arith, ◌⊎◌, inl, inr,
  Bool-cases, Option-cases,
}
use joycast.Prelude.Outcome.{ok}
use joycast.Prelude.Map.{string_eq, ◌==◌}
use joycast.Prelude.Files.{FileSystem, exists, read_to_string, write, set_content}
use joycast.Trust.{Environment, is_root_context}
use joycast.Server.Key.{
  ServerConfig, Hex, etc_path, sudo_candidate, user_candidate, candidates, target_path,
  parse_secret_key_hex, key_at, first_key, find_or_create, load_or_create_secret_key,
}

abbrev Listed : String → List String → Type 0
Listed path [] = ⊥
Listed path (p ∷ paths) = (p ≡ path) ⊎ Listed path paths

Listed-append : (path : String) (a b : List String) → Listed path b → Listed path (a ++ b)
Listed-append path [] b l = l
Listed-append path (p ∷ a) b l = inr (Listed-append path a b l)

target_path-Listed :
    (env : Environment) (fs : FileSystem) → Listed (target_path env fs) (candidates env)
unfolding target_path candidates user_candidate
target_path-Listed env fs = elim (Bool-cases (exists fs etc_path || is_root_context env)) [
  | inl etc ↦ inl (ground arith)
  | inr user ↦ elim (Option-cases env.config_dir) [
    | inl e ↦ inl (ground arith)
    | inr (dir, e) ↦
        let same : (target_path env fs ∷ []) ≡ user_candidate env = ground arith in
        inr (
          Listed-append (target_path env fs) (sudo_candidate env) (user_candidate env)
            (subst (λ (l : List String). Listed (target_path env fs) l) same (inl refl)))
  ]
]

module _ (hex : Hex) (fs : FileSystem) (path : String) (key : List ℕ) where
  key_at-write :
      parse_secret_key_hex hex (hex.encode key) ≡ ok key
      → (fs path).readable ≡ true
      → (fs path).writable ≡ true
      → key_at hex (write fs path (hex.encode key)).1 path ≡ some key
  unfolding key_at exists read_to_string write set_content
  key_at-write p r w = ground (arith, eq_refl path)

  key_at-write_other :
      (other : String)
      → path == other ≡ false
      → key_at hex (write fs path (hex.encode key)).1 other ≡ key_at hex fs other
  unfolding key_at exists read_to_string write set_content
  key_at-write_other other n = ground arith

  first_key-write :
      (paths : List String)
      → parse_secret_key_hex hex (hex.encode key) ≡ ok key
      → (fs path).readable ≡ true
      → (fs path).writable ≡ true
      → first_key hex fs paths ≡ none
      → Listed path paths
      → first_key hex (write fs path (hex.encode key)).1 paths ≡ some key
  unfolding first_key
  first_key-write [] p r w n l = elim l [ ]
  first_key-write (q ∷ paths) p r w n l = elim (Bool-cases (path == q)) [
    | inl same ↦ ground (arith, key_at-write p r w, eq_iff path q)
    | inr differ ↦ elim l [
      | inl e ↦ absurd (ground (arith, eq_iff path q))
      | inr later ↦
          let kept = key_at-write_other q differ in
          let rest = first_key-write paths p r w (ground arith) later in ground arith
    ]
  ]

module _ (hex : Hex) where
  -- The key is the same at every start: what the first start gives, the next one gives too, on the
  -- files that the first one left and whatever new key is at hand. The file for a new key can be
  -- read and written, and what the first start writes of its new key is read as that key.
  pub load_or_create_secret_key_stable :
      (config : ServerConfig) (env : Environment) (fs : FileSystem) (generated other : List ℕ)
      → parse_secret_key_hex hex (hex.encode generated) ≡ ok generated
      → (fs (target_path env fs)).readable ≡ true
      → (fs (target_path env fs)).writable ≡ true
      → (load_or_create_secret_key hex config env
          (load_or_create_secret_key hex config env fs generated).1
          other).0
        ≡ (load_or_create_secret_key hex config env fs generated).0
  unfolding load_or_create_secret_key find_or_create
  load_or_create_secret_key_stable config env fs generated other p r w =
      elim (Option-cases (first_key hex fs (candidates env))) [
        | inl e ↦
            let kept =
              first_key-write hex fs (target_path env fs) generated (candidates env) p r w e
                (target_path-Listed env fs) in
            ground arith
        | inr (key, e) ↦ ground arith
      ]
