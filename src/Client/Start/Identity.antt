-- ===== src/Client/Start/Identity.antt =====
-- Who the client is, and to whom it talks: the id that every start finds again, the target and the
-- device that `JoycastClient::new` settles on.
use Prim.Native.Char.{Char}
use std.Path.{ap₂}
use text.Mathlib.TextPositions.{eq_refl}
use joycast.Prelude.{
  ℕ, ◌-◌, String, ◌≡◌, refl, sym, ap, ◌∙◌, true, false, Option, none, some, List, [], ◌∷◌, arith,
  inl, inr, Option-cases, get_elem?,
}
use joycast.Prelude.Outcome.{Result, ok, Codec, Result-cases}
use joycast.Prelude.Map.{string_eq, ◌==◌}
use joycast.Prelude.Text.{trim}
use joycast.Prelude.Files.{FileSystem, exists, read_to_string, write, set_content}
use joycast.Trust.{Environment}
use joycast.Transport.{Addresses, from_str}
use joycast.History.{KnownServerInfo}
use joycast.Device.{KeyCodes, DeviceInfo}
use joycast.Device.Listing.{list_devices_filtered}
use joycast.Client.{resolve_target, load_or_create_client_id, select_device, parse_choice}
use joycast.Client.Target.{resolve_target-from_str}
use joycast.Client.Start.{
  ClientConfig, JoycastClient, Surroundings, joycast_file, choose_device, new,
}

load_or_create_client_id_stable :
    (fs : FileSystem) (path generated other : String)
    → (fs path).readable ≡ true
    → (fs path).writable ≡ true
    → trim generated ≡ generated
    → generated == "" ≡ false
    → (load_or_create_client_id (load_or_create_client_id fs path generated).1 path other).0
      ≡ (load_or_create_client_id fs path generated).0
unfolding load_or_create_client_id exists read_to_string write set_content
load_or_create_client_id_stable fs path generated other r w t n = ground (arith, eq_refl path)

-- one of the devices that are listed, where there is one
abbrev pub Listed : List DeviceInfo → Option String → Type 0
Listed [] none = Unit
Listed (d ∷ devices) (some path) =
    (i : ℕ) × (found : DeviceInfo) × (get_elem? (d ∷ devices) i ≡ some found) × (found.path ≡ path)
Listed _ _ = ⊥

-- the device that is configured, or else one of those
abbrev pub Chosen : Option String → List DeviceInfo → Option String → Type 0
Chosen (some path) devices chosen = chosen ≡ some path
Chosen none devices chosen = Listed devices chosen

module _ (json : Codec (List KnownServerInfo) String) (addresses : Addresses) (codes : KeyCodes)
    (unicode : Char → String) (parse_usize : String → Option ℕ) where
  new_parts :
      (config : ClientConfig) (env : Environment) (s : Surroundings) (fs : FileSystem)
      (c : JoycastClient)
      → (new json addresses codes unicode parse_usize config env s fs).0 ≡ ok c
      → let id =
          load_or_create_client_id fs
            (joycast_file env "client_id" config.client_id_file)
            s.generated in
        let history_path = joycast_file env "known_servers.json" config.history_file in
        (c.client_id ≡ id.0)
        × ((new json addresses codes unicode parse_usize config env s fs).1 ≡ id.1)
        × (resolve_target addresses unicode parse_usize json fs history_path config.target
              s.server_line
            ≡ ok (c.target, c.target_raw))
        × (choose_device json addresses codes unicode parse_usize config s
            ≡ ok c.device_selection.requested_path)
  unfolding new
  new_parts config env s fs c h =
      let history_path = joycast_file env "known_servers.json" config.history_file in
      elim (Result-cases (
        resolve_target addresses unicode parse_usize json fs history_path config.target
          s.server_line)) [
            | inl ((target, raw), e) ↦
                elim (Result-cases
                  (choose_device json addresses codes unicode parse_usize config s)) [
                    | inl (path, f) ↦ ground arith
                    | inr (x, f) ↦ absurd (ground arith)
                  ]
            | inr (x, e) ↦ absurd (ground arith)
          ]

  select_device-Listed :
      (devices : List DeviceInfo) (line : Result String) (path : Option String)
      → select_device addresses unicode parse_usize devices line ≡ ok path
      → Listed devices path
  unfolding select_device
  select_device-Listed [] line none h = tt
  select_device-Listed [] line (some path) h = ground arith
  select_device-Listed (d ∷ []) line none h = ground arith
  select_device-Listed (d ∷ []) line (some path) h = (0, d, refl, ground arith)
  select_device-Listed (d ∷ d' ∷ rest) line none h = ground arith
  select_device-Listed (d ∷ d' ∷ rest) line (some path) h =
      elim (Result-cases
        (parse_choice addresses unicode parse_usize line "Failed to read device selection")) [
          | inl (choice, e) ↦ elim (Option-cases (get_elem? (d ∷ d' ∷ rest) (choice - 1))) [
            | inl f ↦ absurd (ground arith)
            | inr (found, f) ↦ (choice - 1, found, f, ground arith)
          ]
          | inr (x, e) ↦ absurd (ground arith)
        ]

  choose_device-Chosen :
      (config : ClientConfig) (s : Surroundings) (path : Option String)
      → choose_device json addresses codes unicode parse_usize config s ≡ ok path
      → Chosen config.device_path
          (list_devices_filtered codes unicode config.keyboard config.mouse config.all s.devices)
          path
  unfolding choose_device
  choose_device-Chosen config s path h = elim (Option-cases config.device_path) [
    | inl e ↦ rw e (select_device-Listed _ s.device_line path (ground arith))
    | inr (p, e) ↦ rw e (ground arith)
  ]

  -- The client has the same id at every start: where two clients are made one after the other with
  -- the same file for the id, and the rest of their configuration and of what they meet as it may
  -- be, the second has the id of the first. The file can be read and written, and a new id is a
  -- text that is not empty and has no blanks around it.
  pub new_stable :
      (config later : ClientConfig) (env : Environment) (s t : Surroundings) (fs : FileSystem)
      (c d : JoycastClient)
      → (fs (joycast_file env "client_id" config.client_id_file)).readable ≡ true
      → (fs (joycast_file env "client_id" config.client_id_file)).writable ≡ true
      → trim s.generated ≡ s.generated
      → s.generated == "" ≡ false
      → later.client_id_file ≡ config.client_id_file
      → (new json addresses codes unicode parse_usize config env s fs).0 ≡ ok c
      → (new json addresses codes unicode parse_usize later env t
          (new json addresses codes unicode parse_usize config env s fs).1).0
        ≡ ok d
      → d.client_id ≡ c.client_id
  new_stable config later env s t fs c d r w m n same h k =
      let (id, files, e, f) = new_parts config env s fs c h in
      let (id', files', e', f') =
        new_parts later env t (new json addresses codes unicode parse_usize config env s fs).1 d
          k in
      let same_file = ap (λ (file : Option String). joycast_file env "client_id" file) same in
      id'
      ∙ (ap₂
            (λ (fs' : FileSystem) (path : String).
              (load_or_create_client_id fs' path t.generated).0)
            files same_file
          ∙ (load_or_create_client_id_stable fs (joycast_file env "client_id" config.client_id_file)
                s.generated t.generated r w m n
              ∙ sym id))

  -- The client that is made keeps a text for its target, which is read as the same address; and the
  -- device path that is configured, or else that of a listed device, or none where no device is
  -- listed.
  pub new-from_str :
      (config : ClientConfig) (env : Environment) (s : Surroundings) (fs : FileSystem)
      (c : JoycastClient)
      → (new json addresses codes unicode parse_usize config env s fs).0 ≡ ok c
      → (from_str addresses c.target_raw ≡ ok c.target)
        × Chosen config.device_path
            (list_devices_filtered codes unicode config.keyboard config.mouse config.all s.devices)
            c.device_selection.requested_path
  new-from_str config env s fs c h =
      let (id, files, e, f) = new_parts config env s fs c h in
      (
        resolve_target-from_str addresses unicode parse_usize json fs
            (joycast_file env "known_servers.json" config.history_file) config.target s.server_line
            c.target c.target_raw e,
        choose_device-Chosen config s c.device_selection.requested_path f,
      )
