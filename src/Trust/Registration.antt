-- ===== src/Trust/Registration.antt =====
-- `register_pending` of src/trust.rs: a request is recorded and approves nobody.
use joycast.Prelude.{String, ◌≡◌, refl, sym, ◌∙◌, ap, true, false, inl, inr, Bool-cases}
use joycast.Prelude.Outcome.{ok, Codec}
use joycast.Prelude.Map.{Map, string_eq, contains_key, insert}
use joycast.Prelude.Files.{FileSystem}
use joycast.Trust.{
  PendingClientInfo, ApprovedClientInfo, TrustData, TrustManager, reload, save, record_pending,
  register_pending, is_approved,
}
use joycast.Trust.Disk.{
  current, current-record, current_idem, reload_memory, reload_path, current_of_stored, save_lem,
  save_keeps, is_approved_lem,
}

abbrev pub request : String → String → String → String → String → PendingClientInfo
request client_id hostname device transport now = record {
  client_id = client_id;
  hostname = hostname;
  device_name = device;
  transport = transport;
  first_seen = now;
}

-- The trust data with one request more.
abbrev pub requested : PendingClientInfo → TrustData → TrustData
requested p d = record d { pending = insert d.pending p.client_id p }

module _ (json : Codec TrustData String) where
  after_save_approved :
      (fs : FileSystem) (tm : TrustManager) (d : TrustData)
      → (fs tm.store_path).readable ≡ true
      → current json fs tm ≡ tm.memory
      → d.approved ≡ tm.memory.approved
      → (current json (save json fs tm.store_path d).1 (record tm { memory = d })).approved
        ≡ tm.memory.approved
  after_save_approved fs tm d r h a = elim (save_lem json fs tm.store_path d r) [
    | inl (o, s) ↦ rw (current_of_stored json _ tm.store_path (record tm { memory = d }) d refl s) a
    | inr (e, o, s) ↦
        rw s (elim (current-record json fs tm d) [ inl c ↦ rw c a | inr c ↦ rw (c, h) ])
  ]

  record_pending_approved :
      (p : PendingClientInfo) (fs : FileSystem) (tm : TrustManager)
      → (fs tm.store_path).readable ≡ true
      → current json fs tm ≡ tm.memory
      → (current json (record_pending json p fs tm).0 (record_pending json p fs tm).1).approved
        ≡ tm.memory.approved
  unfolding record_pending
  record_pending_approved p fs tm r h =
      let d : TrustData = record tm.memory { pending = insert tm.memory.pending p.client_id p } in
      let saved = after_save_approved fs tm d r h refl in
      elim (Bool-cases (contains_key tm.memory.approved p.client_id)) [
        | inl there ↦ rw there (ap (λ (x : TrustData). x.approved) h)
        | inr absent ↦ rw absent saved
      ]

  -- A request for approval approves nobody: the manager that records it gives the same answer to
  -- `is_approved` for every id before and after, whether or not the file could be written. The file
  -- can be read.
  pub register_pending-is_approved :
      (client_id hostname device transport now j : String) (fs : FileSystem) (tm : TrustManager)
      → (fs tm.store_path).readable ≡ true
      → let after = register_pending json client_id hostname device transport now fs tm in
        (is_approved json j after.0 after.1).0 ≡ (is_approved json j fs tm).0
  unfolding register_pending
  register_pending-is_approved client_id hostname device transport now j fs tm r =
      let same = reload_path json fs tm in
      let loaded = reload_memory json fs tm in
      let p = request client_id hostname device transport now in
      let kept =
        record_pending_approved p fs (reload json fs tm) (rw same r)
          (current_idem json fs tm ∙ sym loaded)
        ∙ ap (λ (d : TrustData). d.approved) loaded in
      is_approved_lem json j _ _
      ∙ ap (λ (m : Map String ApprovedClientInfo). contains_key m j) kept
      ∙ sym (is_approved_lem json j fs tm)

  -- The request of a client that is not approved is in the file for every manager to see, and
  -- nothing else changes, if the file can be read and written and the data serialised.
  pub current-register_pending :
      (client_id hostname device transport now : String) (fs : FileSystem) (tm other : TrustManager)
      → let p = request client_id hostname device transport now in
        (fs tm.store_path).readable ≡ true
        → (fs tm.store_path).writable ≡ true
        → ((text : String) × (json.encode (requested p (current json fs tm)) ≡ ok text))
        → other.store_path ≡ tm.store_path
        → (is_approved json client_id fs tm).0 ≡ false
        → current json (register_pending json client_id hostname device transport now fs tm).0 other
          ≡ requested p (current json fs tm)
  unfolding register_pending record_pending
  current-register_pending client_id hostname device transport now fs tm other r w t px a =
      let same = reload_path json fs tm in
      let loaded = reload_memory json fs tm in
      let p = request client_id hostname device transport now in
      let here = reload json fs tm in
      let absent : contains_key here.memory.approved client_id ≡ false =
        rw loaded (sym (is_approved_lem json client_id fs tm) ∙ a) in
      let d = requested p here.memory in
      let seen =
        current_of_stored json (save json fs here.store_path d).1 here.store_path other d
          (px ∙ sym same)
          (save_keeps json fs here.store_path d (rw same r) (rw same w) (rw loaded t)) in
      rw absent (seen ∙ ap (requested p) loaded)
