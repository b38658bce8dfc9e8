-- ===== src/Transport/Parse.antt =====
-- What `TargetAddress::from_str` of src/transport.rs accepts, and that it reads back what `Display`
-- prints.
use joycast.Prelude.{String, ◌≡◌, none, some, Option-cases, ◌↔◌, ◌⊎◌, inl, inr, arith}
use joycast.Prelude.Outcome.{ok}
use joycast.Prelude.Text.{trim}
use joycast.Transport.{
  IpAddr, socket_addr, TargetAddress, ip, iroh, Addresses, display, from_str, default_port,
}

module _ (addresses : Addresses) where
  -- The address that a trimmed text stands for: the three forms, in the order of their precedence.
  abbrev pub Denotes : String → TargetAddress → Type 0
  Denotes s (ip a) =
      (addresses.parse_socket_addr s ≡ some a)
      ⊎ ((addresses.parse_socket_addr s ≡ none)
          × ((b : IpAddr) × (addresses.parse_ip_addr s ≡ some b)
              × (a ≡ socket_addr b default_port)))
  Denotes s (iroh pk) =
      (addresses.parse_socket_addr s ≡ none)
      × (addresses.parse_ip_addr s ≡ none)
      × (addresses.parse_public_key s ≡ some pk)

  -- A text is read as an address exactly if, without the blanks around it, it denotes it.
  pub from_str_iff :
      (text : String) (t : TargetAddress) → (from_str addresses text ≡ ok t) ↔ Denotes (trim text) t
  unfolding from_str
  from_str_iff text (ip a) = elim (Option-cases (addresses.parse_socket_addr (trim text))) [
    | inr (b, e) ↦
        ((λ h. inl (ground arith)), λ d. elim d [ inl f ↦ ground arith | inr f ↦ ground arith ])
    | inl e ↦ elim (Option-cases (addresses.parse_ip_addr (trim text))) [
      | inr (b, f) ↦ (
        (λ h. inr (e, (b, f, ground arith))),
        λ d. elim d [ inl g ↦ ground arith | inr g ↦ ground arith ],
      )
      | inl f ↦ ((λ h. ground arith), λ d. elim d [ inl g ↦ ground arith | inr g ↦ ground arith ])
    ]
  ]
  from_str_iff text (iroh pk) = ground arith

  -- What is printed of an address is read as that address, if the print has no blanks around it and
  -- denotes the address.
  pub from_str-display :
      (t : TargetAddress)
      → trim (display addresses t) ≡ display addresses t
      → Denotes (display addresses t) t
      → from_str addresses (display addresses t) ≡ ok t
  from_str-display t tight h = (from_str_iff (display addresses t) t).1 (rw tight h)
