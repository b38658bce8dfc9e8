-- ===== src/Client/Reopen.antt =====
-- `try_reopen` of src/client.rs: which device the client takes when a controller comes back.
use text.Mathlib.TextEquality.{eq_iff}
use joycast.Prelude.{
  String, ◌≡◌, refl, sym, ap, ◌∙◌, subst, Bool, true, Option, none, some, List, [], ◌∷◌, arith, ◌⊎◌,
  inl, inr, Bool-cases, Option-cases,
}
use joycast.Prelude.Map.{string_eq, ◌==◌}
use joycast.Device.{Device, extract_metadata}
use joycast.Client.{ReconnectingDevice, matches, search, try_reopen}

-- the entry is one of the enumerated
abbrev pub Among : String × Device → List (String × Device) → Type 0
Among found [] = ⊥
Among found (d ∷ devices) = (d ≡ found) ⊎ Among found devices

module _ (r : ReconnectingDevice) where
  abbrev pub fits : String × Device → Bool
  fits found = matches r.identity (extract_metadata found.1)

  search-Among :
      (fallback : Option (String × Device)) (devices : List (String × Device))
      (found : String × Device)
      → search r fallback devices ≡ some found
      → (fallback ≡ some found) ⊎ (Among found devices × (fits found ≡ true))
  unfolding search
  search-Among fallback [] found h = inl h
  search-Among none (d ∷ devices) found h =
      ground (arith, search-Among none devices found, search-Among (some d) devices found)
  search-Among (some f) (d ∷ devices) found h = ground (arith, search-Among (some f) devices found)

  search_found :
      (fallback : String × Device) (devices : List (String × Device))
      → (found : String × Device) × (search r (some fallback) devices ≡ some found)
  unfolding search
  search_found fallback [] = (fallback, refl)
  search_found fallback (d ∷ devices) =
      let (later, e) = search_found fallback devices in
      elim (Bool-cases (fits d)) [
        | inl m ↦ elim (Bool-cases (d.0 == r.preferred_path)) [
          | inl p ↦ (d, ground arith)
          | inr q ↦ (later, ground arith)
        ]
        | inr n ↦ (later, ground arith)
      ]

  -- one device that matches comes first
  search_here :
      (d : String × Device) (devices : List (String × Device))
      → fits d ≡ true
      → (found : String × Device) × (search r none (d ∷ devices) ≡ some found)
  unfolding search
  search_here d devices m =
      let (later, e) = search_found d devices in
      elim (Bool-cases (d.0 == r.preferred_path)) [
        | inl p ↦ (d, ground arith)
        | inr q ↦ (later, ground arith)
      ]

  search-some :
      (devices : List (String × Device)) (there : String × Device)
      → Among there devices
      → fits there ≡ true
      → (found : String × Device) × (search r none devices ≡ some found)
  unfolding search
  search-some [] there e m = elim e [ ]
  search-some (d ∷ devices) there (inl e) m = search_here d devices (ap fits e ∙ m)
  search-some (d ∷ devices) there (inr e) m =
      let (later, h) = search-some devices there e m in
      elim (Bool-cases (fits d)) [
        | inl here ↦ search_here d devices here
        | inr n ↦ (later, ground arith)
      ]

  search_prefers :
      (fallback : Option (String × Device)) (devices : List (String × Device)) (there : Device)
      → Among (r.preferred_path, there) devices
      → fits (r.preferred_path, there) ≡ true
      → (found : Device) × (search r fallback devices ≡ some (r.preferred_path, found))
  unfolding search
  search_prefers fallback [] there e m = elim e [ ]
  search_prefers fallback (d ∷ devices) there (inl e) m =
      let here = ap fits e ∙ m in
      let path = ap (λ (x : String × Device). x.0) e in
      (there, ground (arith, eq_iff d.0 r.preferred_path))
  search_prefers fallback (d ∷ devices) there (inr e) m =
      let (later, h) = search_prefers fallback devices there e m in
      let (later', h') = search_prefers (some d) devices there e m in
      elim (Bool-cases (fits d)) [
        | inl here ↦ elim (Bool-cases (d.0 == r.preferred_path)) [
          | inl p ↦ (d.1, ground (arith, eq_iff d.0 r.preferred_path))
          | inr q ↦ elim (Option-cases fallback) [
            | inl none_yet ↦ (later', ground arith)
            | inr (f, one) ↦ (later, ground arith)
          ]
        ]
        | inr n ↦ (later, ground arith)
      ]

  -- A device that is taken is one of the enumerated, and has the identity of the device that was
  -- lost, which is still the one that is looked for; its path is the preferred one from now on.
  pub try_reopen-fits :
      (devices : List (String × Device)) (device : Device)
      → (try_reopen devices r).0 ≡ some device
      → let after = (try_reopen devices r).1 in
        Among (after.preferred_path, device) devices
        × (fits (after.preferred_path, device) ≡ true)
        × (after.identity ≡ r.identity)
  unfolding try_reopen
  try_reopen-fits devices device h = elim (Option-cases (search r none devices)) [
    | inl e ↦ absurd (ground arith)
    | inr (found, e) ↦ elim (search-Among none devices found e) [
      | inl x ↦ absurd (ground arith)
      | inr (there, m) ↦
          let same : found ≡ ((try_reopen devices r).1.preferred_path, device) = ground arith in
          (
            subst (λ (x : String × Device). Among x devices) same there,
            ap fits (sym same) ∙ m,
            ground arith,
          )
    ]
  ]

  -- If a device of that identity is among the enumerated, one is taken; if it is there under the
  -- preferred path, one at that path is.
  pub try_reopen-some :
      (devices : List (String × Device)) (path : String) (device : Device)
      → Among (path, device) devices
      → fits (path, device) ≡ true
      → ((found : Device) × ((try_reopen devices r).0 ≡ some found))
        × (path ≡ r.preferred_path → (try_reopen devices r).1.preferred_path ≡ path)
  unfolding try_reopen
  try_reopen-some devices path device there m =
      let (found, e) = search-some devices (path, device) there m in
      (
        (found.1, ground arith),
        λ p.
            let (last, h) =
              search_prefers none devices device
                (subst (λ (q : String). Among (q, device) devices) p there) m in
            ground arith,
      )

pub try_reopen-identity :
    (devices : List (String × Device)) (r : ReconnectingDevice)
    → (try_reopen devices r).1.identity ≡ r.identity
unfolding try_reopen
try_reopen-identity devices r = ground arith
