-- ===== src/Trust/Race.antt =====
-- Two processes on one trust file: the server records a request between its own read and its own
-- write, while the command line approves another client.
use joycast.Prelude.{String, ◌≡◌, sym, ◌∙◌, ap, true, false}
use joycast.Prelude.Outcome.{ok, Codec}
use joycast.Prelude.Map.{string_eq, contains_key, insert}
use joycast.Prelude.Files.{FileSystem}
use joycast.Trust.{
  PendingClientInfo, TrustData, TrustManager, reload, save, record_pending, is_approved,
}
use joycast.Trust.Disk.{
  current, reload_memory, reload_path, current_of_stored, save_keeps, is_approved_lem,
}

module _ (json : Codec TrustData String) where
  -- The server reads the file (`before`), anything happens to the file (`between`, an approval or a
  -- revocation by the command line, say), and the server then records its request, in a file that
  -- can be read and written. What every manager sees as approved afterwards is what the server had
  -- read: the change in between is lost.
  pub register_pending_loses_update :
      (p : PendingClientInfo) (before between : FileSystem) (server other : TrustManager)
      (j : String)
      → (between server.store_path).readable ≡ true
      → (between server.store_path).writable ≡ true
      → ((text : String) × (json.encode (record (current json before server) {
        pending = insert (current json before server).pending p.client_id p;
      })
            ≡ ok text))
      → other.store_path ≡ server.store_path
      → (is_approved json p.client_id before server).0 ≡ false
      → (is_approved json j (record_pending json p between (reload json before server)).0 other).0
        ≡ (is_approved json j before server).0
  unfolding record_pending
  register_pending_loses_update p before between server other j r w t same a =
      let path = reload_path json before server in
      let loaded = reload_memory json before server in
      let mem = (reload json before server).memory in
      let absent : contains_key mem.approved p.client_id ≡ false =
        rw loaded (sym (is_approved_lem json p.client_id before server) ∙ a) in
      let d : TrustData = record mem { pending = insert mem.pending p.client_id p } in
      let file = (reload json before server).store_path in
      let seen =
        current_of_stored json (save json between file d).1 file other d (same ∙ sym path)
          (save_keeps json between file d (rw path r) (rw path w) (rw loaded t)) in
      rw absent (
        is_approved_lem json j (save json between file d).1 other
        ∙ ap (λ (x : TrustData). contains_key x.approved j) seen
        ∙ ap (λ (x : TrustData). contains_key x.approved j) loaded
        ∙ sym (is_approved_lem json j before server))
