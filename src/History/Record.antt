-- ===== src/History/Record.antt =====
-- The vector of servers of src/history.rs: what recording a connection makes of it, and that no two
-- entries ever share a hostname or a target.
use Prim.Native.Char.{Char}
use text.Mathlib.TextPositions.{eq_refl}
use text.Mathlib.TextEquality.{eq_iff}
use joycast.Prelude.{
  ℕ, zero, suc, ◌-◌, ap, ◌≤◌, ◌<◌, String, ◌≡◌, refl, true, false, some, List, [], ◌∷◌, length,
  get_elem?, find, retain, ltb, arith, ◌↔◌, ◌⊎◌, inl, inr, Bool-cases,
}
use joycast.Prelude.Outcome.{ok, Codec, Result-cases}
use joycast.Prelude.Map.{string_eq, ◌==◌}
use joycast.Prelude.Text.{trim, to_lowercase}
use joycast.Prelude.Files.{FileSystem, exists, read_to_string, write, set_content}
use joycast.History.{
  KnownServerInfo, HistoryStore, is_other, save, with_path, record_connection, get_by_index,
  find_by_hostname,
}

-- The entries share neither the target nor the hostname.
abbrev pub IsApart : KnownServerInfo → KnownServerInfo → Type 0
IsApart e s = ((s.target ≡ e.target) → ⊥) × ((s.server_hostname ≡ e.server_hostname) → ⊥)

abbrev pub AllApart : KnownServerInfo → List KnownServerInfo → Type 0
AllApart e [] = Unit
AllApart e (s ∷ rest) = IsApart e s × AllApart e rest

-- No entry shares its target or its hostname with a later one.
abbrev pub Separate : List KnownServerInfo → Type 0
Separate [] = Unit
Separate (s ∷ rest) = AllApart s rest × Separate rest

-- The second list is the first, in its order, without the entries that share the target or the
-- hostname of `e`.
pub data Clears (e : KnownServerInfo) : List KnownServerInfo → List KnownServerInfo → Type 0 where
  cleared : Clears e [] []
  kept :
      {s : KnownServerInfo} {old new : List KnownServerInfo}
      → IsApart e s
      → Clears e old new
      → Clears e (s ∷ old) (s ∷ new)
  dropped :
      {s : KnownServerInfo} {old new : List KnownServerInfo}
      → (s.target ≡ e.target) ⊎ (s.server_hostname ≡ e.server_hostname)
      → Clears e old new
      → Clears e (s ∷ old) new

Clears-AllApart :
    (e : KnownServerInfo) (old new : List KnownServerInfo) → Clears e old new → AllApart e new
Clears-AllApart e _ _ cleared = tt
Clears-AllApart e _ _ (kept a c) = (a, Clears-AllApart e _ _ c)
Clears-AllApart e _ _ (dropped a c) = Clears-AllApart e _ _ c

-- what holds of all, holds of what is left
Clears-kept :
    (e x : KnownServerInfo) (old new : List KnownServerInfo)
    → Clears e old new
    → AllApart x old
    → AllApart x new
Clears-kept e x _ _ cleared h = tt
Clears-kept e x _ _ (kept a c) (p, h) = (p, Clears-kept e x _ _ c h)
Clears-kept e x _ _ (dropped a c) (p, h) = Clears-kept e x _ _ c h

Clears-Separate :
    (e : KnownServerInfo) (old new : List KnownServerInfo)
    → Clears e old new
    → Separate old
    → Separate new
Clears-Separate e _ _ cleared h = tt
Clears-Separate e _ _ (kept {s} {old} {new} a c) (p, h) =
    (Clears-kept e s old new c p, Clears-Separate e old new c h)
Clears-Separate e _ _ (dropped a c) (p, h) = Clears-Separate e _ _ c h

pub differ : (a b : String) → a == b ≡ false → a ≡ b → ⊥
differ a b h e = ground (arith, eq_iff a b)

retain-Clears :
    (e : KnownServerInfo) (old : List KnownServerInfo)
    → Clears e old (retain (is_other e.server_hostname e.target) old)
unfolding retain
retain-Clears e [] = cleared
retain-Clears e (s ∷ old) = elim (Bool-cases (s.target == e.target)) [
  | inl t ↦ rw (t, retain) (dropped (inl ((eq_iff s.target e.target).0 t)) (retain-Clears e old))
  | inr t ↦ elim (Bool-cases (s.server_hostname == e.server_hostname)) [
    | inl h ↦
        rw (t, h, retain)
          (dropped (inr ((eq_iff s.server_hostname e.server_hostname).0 h)) (retain-Clears e old))
    | inr h ↦
        rw (t, h, retain)
          (kept (differ s.target e.target t, differ s.server_hostname e.server_hostname h)
            (retain-Clears e old))
  ]
]

get_elem?-some :
    {A : Type 0} (xs : List A) (i : ℕ) → ((x : A) × (get_elem? xs i ≡ some x)) ↔ (i < length xs)
get_elem?-some [] i = ((λ h. ground arith), λ h. ground arith)
get_elem?-some (x ∷ xs) zero = ((λ h. omega arith), λ h. (x, refl))
get_elem?-some (x ∷ xs) (suc i) =
    let rest = get_elem?-some xs i in ((λ h. omega (arith, rest.0 h)), λ h. rest.1 (omega arith))

index_sub : (i : ℕ) → suc i - 1 ≡ i
index_sub i = omega arith

-- An index finds an entry exactly from 1 to the number of entries.
pub get_by_index_iff :
    (store : HistoryStore) (index : ℕ)
    → ((s : KnownServerInfo) × (get_by_index store index ≡ some s))
      ↔ ((1 ≤ index) × (index ≤ length store.servers))
unfolding get_by_index
get_by_index_iff store zero = ((λ h. ground arith), λ h. ground arith)
get_by_index_iff store (suc i) =
    let at_i = get_elem?-some store.servers i in
    elim (Bool-cases (ltb (length store.servers) (suc i))) [
      | inl past ↦ ((λ h. ground arith), λ h. ground arith)
      | inr within ↦ (
        (λ h. (omega arith, ground arith)),
        λ h.
            let (x, e) = at_i.1 (omega (arith, h.1)) in
            (x, ground (arith, ap (get_elem? store.servers) (index_sub i))),
      )
    ]

module _ (json : Codec (List KnownServerInfo) String) where
  with_path-save :
      (fs : FileSystem) (store : HistoryStore)
      → (save json fs store).0 ≡ ok tt
      → (fs store.store_path).readable ≡ true
      → with_path json (save json fs store).1 store.store_path ≡ store
  unfolding save with_path exists read_to_string write set_content
  with_path-save fs store e r = elim (Result-cases (json.encode store.servers)) [
    | inl (text, h) ↦
        ground (arith, json.decode-encode store.servers text h, eq_refl store.store_path)
    | inr (x, h) ↦ ground arith
  ]

  module _ (host target kind now : String) (fs : FileSystem) (store : HistoryStore) where
    abbrev after : HistoryStore
    after = (record_connection json host target kind now fs store).2

    abbrev entry : KnownServerInfo
    entry = record {
      server_hostname = host;
      target = target;
      transport_type = kind;
      last_connected = now;
    }

    -- The store holds entries no two of which share a target or a hostname. Recording a connection,
    -- whether or not the file can be written, puts its entry first, and after it the entries that
    -- were there, in their order, without exactly those that share the new entry's target or its
    -- hostname; and no two of the entries share a target or a hostname then.
    pub record_connection-Separate :
        Separate store.servers
        → Separate after.servers
          × (rest : List KnownServerInfo) × (after.servers ≡ entry ∷ rest)
          × Clears entry store.servers rest
    unfolding record_connection
    record_connection-Separate h =
        let clears = retain-Clears entry store.servers in
        (
          (Clears-AllApart entry _ _ clears, Clears-Separate entry _ _ clears h),
          retain (is_other host target) store.servers,
          refl,
          clears,
        )

    -- The entry of the latest connection has index 1, and is found by any text that is its hostname
    -- but for blanks around it and the case of letters.
    pub find_by_hostname-record_connection :
        (unicode : Char → String) (text : String)
        → to_lowercase unicode (trim text) ≡ to_lowercase unicode host
        → (get_by_index after 1 ≡ some entry) × (find_by_hostname unicode after text ≡ some entry)
    unfolding record_connection get_by_index find_by_hostname find
    find_by_hostname-record_connection unicode text h = (
      ground arith,
      ground (arith, eq_iff (to_lowercase unicode host) (to_lowercase unicode (trim text))),
    )

    -- If the file was written and can be read, a store that is made from it has the same entries.
    pub with_path-record_connection :
        (record_connection json host target kind now fs store).0 ≡ ok tt
        → (fs store.store_path).readable ≡ true
        → with_path json (record_connection json host target kind now fs store).1 store.store_path
          ≡ after
    unfolding record_connection
    with_path-record_connection e r = with_path-save fs after e r
