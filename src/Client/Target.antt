-- ===== src/Client/Target.antt =====
-- `resolve_target` of src/client.rs: the address it gives, and that a recorded server is found again.
use Prim.Native.Char.{Char}
use joycast.Prelude.{ℕ, String, ◌≡◌, true, Option, none, some, arith, List}
use joycast.Prelude.Outcome.{Result, ok, err, Codec}
use joycast.Prelude.Text.{trim, to_lowercase}
use joycast.Prelude.Files.{FileSystem}
use joycast.Transport.{TargetAddress, Addresses, from_str}
use joycast.History.{KnownServerInfo, HistoryStore, with_path, record_connection}
use joycast.History.Record.{find_by_hostname-record_connection, with_path-record_connection}
use joycast.Client.{resolve_target, resolve_specified, select_server}

module _ (addresses : Addresses) (unicode : Char → String) (parse_usize : String → Option ℕ) where
  resolve_specified-from_str :
      (json : Codec (List KnownServerInfo) String) (fs : FileSystem) (path text : String)
      (t : TargetAddress) (raw : String)
      → resolve_specified addresses unicode parse_usize json fs path text ≡ ok (t, raw)
      → from_str addresses raw ≡ ok t
  unfolding resolve_specified
  resolve_specified-from_str json fs path text t raw h = ground arith

  select_server-from_str :
      (history : HistoryStore) (input : Result String) (t : TargetAddress) (raw : String)
      → select_server addresses unicode parse_usize history input ≡ ok (t, raw)
      → from_str addresses raw ≡ ok t
  unfolding select_server
  select_server-from_str history input t raw h = ground arith

  -- Whatever way the target was chosen, the text that the client keeps for it, and records, is read
  -- as the same address.
  pub resolve_target-from_str :
      (json : Codec (List KnownServerInfo) String) (fs : FileSystem) (path : String)
      (specified : Option String) (input : Result String) (t : TargetAddress) (raw : String)
      → resolve_target addresses unicode parse_usize json fs path specified input ≡ ok (t, raw)
      → from_str addresses raw ≡ ok t
  unfolding resolve_target
  resolve_target-from_str json fs path (some text) input t raw h =
      resolve_specified-from_str json fs path text t raw h
  resolve_target-from_str json fs path none input t raw h =
      select_server-from_str (with_path json fs path) input t raw h

  -- After a connection is recorded on the entries that the history file holds, and the file is
  -- written, a client that resolves its target on the files that this leaves, with the same history
  -- file, which can be read, finds the server's hostname again: in any case and with blanks around
  -- it, it resolves to the same address, unless that text is an address itself.
  pub resolve_target-record_connection :
      (json : Codec (List KnownServerInfo) String) (host raw kind now path : String)
      (fs : FileSystem) (text e : String) (input : Result String) (t : TargetAddress)
      → (record_connection json host raw kind now fs (with_path json fs path)).0 ≡ ok tt
      → (fs path).readable ≡ true
      → from_str addresses raw ≡ ok t
      → from_str addresses text ≡ err e
      → to_lowercase unicode (trim text) ≡ to_lowercase unicode host
      → resolve_target addresses unicode parse_usize json
          (record_connection json host raw kind now fs (with_path json fs path)).1
          path
          (some text)
          input
        ≡ ok (t, raw)
  unfolding resolve_target resolve_specified with_path
  resolve_target-record_connection json host raw kind now path fs text e input t saved can r n
        same =
      let before = with_path json fs path in
      let found =
        (find_by_hostname-record_connection json host raw kind now fs before unicode text same).1 in
      let again = with_path-record_connection json host raw kind now fs before saved can in
      ground (arith, again, found)
