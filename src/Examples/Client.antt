-- ===== src/Examples/Client.antt =====
-- The parser of addresses and the history of servers on concrete inputs.
use text.Mathlib.TextEquality.{eq_iff}
use joycast.Prelude.{
  String, ◌≡◌, refl, ◌&&◌, none, some, List, [], ◌∷◌, if◌then◌else◌, retain, arith,
}
use joycast.Prelude.Outcome.{Result, ok, err, Codec}
use joycast.Prelude.Map.{string_eq, ◌==◌}
use joycast.Transport.{v4, socket_v4, Addresses}
use joycast.History.{KnownServerInfo, HistoryStore, with_path, record_connection}
use joycast.Prelude.Files.{FileSystem}
use joycast.History.Record.{Separate, Clears, differ, record_connection-Separate}
use joycast.Examples.{only}

-- one address of each form
abbrev pub addresses : Addresses
addresses = record {
  parse_socket_addr = λ s. if s == "10.0.0.1:80" then some (socket_v4 167772161 80) else none;
  parse_ip_addr = λ s. if s == "10.0.0.1" then some (v4 167772161) else none;
  parse_public_key = λ s. if s == "ab" then some 171 else none;
  print_socket_addr = λ a. "10.0.0.1:80";
  print_public_key = λ pk. "ab";
}

-- knows the histories of one server with a given target, transport and time, by its hostname
encode_one : List KnownServerInfo → Result String
encode_one (s ∷ []) =
    if s.target == "ab" && s.transport_type == "Iroh P2P" && s.last_connected == "2026-01-01"
    then ok s.server_hostname
    else err "not here"
encode_one _ = err "not here"

decode_one : String → Result (List KnownServerInfo)
decode_one text = ok (
    record {
      server_hostname = text;
      target = "ab";
      transport_type = "Iroh P2P";
      last_connected = "2026-01-01";
    }
    ∷ [])

decode_one-encode_one :
    (l : List KnownServerInfo) (text : String) → encode_one l ≡ ok text → decode_one text ≡ ok l
unfolding encode_one decode_one
decode_one-encode_one (s ∷ []) text h = ground (
  arith,
  eq_iff s.target "ab",
  eq_iff s.transport_type "Iroh P2P",
  eq_iff s.last_connected "2026-01-01",
)
decode_one-encode_one [] text h = ground arith
decode_one-encode_one (_ ∷ _ ∷ _) text h = ground arith

pub json : Codec (List KnownServerInfo) String
unfolding encode_one decode_one
json = record { encode = encode_one; decode = decode_one; decode-encode = decode_one-encode_one }

abbrev pub store : HistoryStore
store = record { store_path = "/h"; servers = [] }

abbrev tron : KnownServerInfo
tron = record {
  server_hostname = "tron";
  target = "ab";
  transport_type = "Iroh P2P";
  last_connected = "2026-01-01";
}

abbrev pub after : HistoryStore
after = (record_connection json "tron" "ab" "Iroh P2P" "2026-01-01" (only "/h" "") store).2

-- the files after the connection to `tron` is recorded
abbrev pub saved : Result (Unit {0}) × FileSystem × HistoryStore
saved =
    record_connection json "tron" "ab" "Iroh P2P" "2026-01-01" (only "/h" "")
      (with_path json (only "/h" "") "/h")

pub saved_ok : saved.0 ≡ ok tt
unfolding record_connection json encode_one decode_one retain with_path
saved_ok = refl

-- another server had the target, and a third is as it was
abbrev old : KnownServerInfo
old = record tron { server_hostname = "clu" }

abbrev other : KnownServerInfo
other = record {
  server_hostname = "quorra";
  target = "10.0.0.1";
  transport_type = "Direct UDP";
  last_connected = "2025-12-31";
}

abbrev both : HistoryStore
both = record { store_path = "/h"; servers = old ∷ other ∷ [] }

abbrev recorded : HistoryStore
recorded = (record_connection json "tron" "ab" "Iroh P2P" "2026-01-01" (only "/h" "") both).2

both-Separate : Separate both.servers
both-Separate = (((differ "10.0.0.1" "ab" refl, differ "quorra" "clu" refl), tt), (tt, tt))

record_connection-Separate_example :
    Separate recorded.servers
    × (rest : List KnownServerInfo) × (recorded.servers ≡ tron ∷ rest)
    × Clears tron both.servers rest
record_connection-Separate_example =
    record_connection-Separate json "tron" "ab" "Iroh P2P" "2026-01-01" (only "/h" "") both
      both-Separate
