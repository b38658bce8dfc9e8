-- ===== src/Server/Key.antt =====
-- The server's key: `parse_secret_key_hex` and `load_or_create_secret_key` of src/server.rs. A key is
-- the list of its bytes. The crate hex is a parameter; the new key is an argument.
pub mod Stable
use Prim.Native.String.{◌++◌}
use mathlib.Core.List.{◌++◌ as append}
use joycast.Prelude.{
  ℕ, String, Bool, true, false, ◌||◌, ◌&&◌, not, Option, none, some, List, [], ◌∷◌, length, eqb,
  if◌then◌else◌,
}
use joycast.Prelude.Outcome.{Result, ok, err, ◌>>=◌, with_context}
use joycast.Prelude.Text.{trim, to_decimal}
use joycast.Prelude.Map.{string_eq, ◌==◌}
use joycast.Prelude.Files.{FileSystem, exists, read_to_string, write}
use joycast.Trust.{Environment, TrustManager, is_root_context}
use joycast.Transport.{SocketAddr}

pub record ServerConfig : Type 0 where
  pub bind_addr : Option SocketAddr
  pub secret_key : Option String
  pub key_file : Option String
  pub disable_udp : Bool
  pub disable_iroh : Bool
  pub trust_manager : Option TrustManager

pub record Hex : Type 0 where
  pub encode : List ℕ → String
  pub decode : String → Result (List ℕ)

abbrev pub etc_path : String
etc_path = "/etc/joycast/server.key"

-- the candidates after the first
unfoldable pub sudo_candidate : Environment → List String
sudo_candidate env = elim env.sudo_user [
  | none ↦ []
  | some user ↦
      if not (user == "") && not (user == "root")
      then ("/home/" ++ user ++ "/.config/joycast/server.key") ∷ []
      else []
]

unfoldable pub user_candidate : Environment → List String
user_candidate env = elim env.config_dir [
  | none ↦ []
  | some dir ↦ (dir ++ "/joycast/server.key") ∷ []
]

unfoldable pub candidates : Environment → List String
candidates env = etc_path ∷ append (sudo_candidate env) (user_candidate env)

-- where a new key is written
unfoldable pub target_path : Environment → FileSystem → String
target_path env fs =
    if exists fs etc_path || is_root_context env
    then etc_path
    else elim env.config_dir [ none ↦ etc_path | some dir ↦ dir ++ "/joycast/server.key" ]

module _ (hex : Hex) where
  -- `parse_secret_key_hex`
  unfoldable pub parse_secret_key_hex : String → Result (List ℕ)
  parse_secret_key_hex hex_str = do
    bytes ← with_context (hex.decode (trim hex_str)) "Invalid hex string for secret key"
    if eqb (length bytes) 32
        then ok bytes
        else err (
            "Secret key must be 32 bytes (64 hex characters), got "
            ++ to_decimal (length bytes)
            ++ " bytes")

  -- the key in one of the candidates
  unfoldable pub key_at : FileSystem → String → Option (List ℕ)
  key_at fs path =
      if exists fs path
      then elim (read_to_string fs path) [
        | err e ↦ none
        | ok content ↦ elim (parse_secret_key_hex content) [ ok key ↦ some key | err e ↦ none ]
      ]
      else none

  -- the loop over the candidates
  unfoldable pub first_key : FileSystem → List String → Option (List ℕ)
  first_key fs [] = none
  first_key fs (path ∷ paths) = elim (key_at fs path) [
    | some key ↦ some key
    | none ↦ first_key fs paths
  ]

  -- without a configured key or file: a candidate's key, or the new one, which is written, if that
  -- is possible
  unfoldable pub find_or_create : Environment → FileSystem → List ℕ → Result (List ℕ) × FileSystem
  find_or_create env fs generated = elim (first_key fs (candidates env)) [
    | some key ↦ (ok key, fs)
    | none ↦ (ok generated, (write fs (target_path env fs) (hex.encode generated)).1)
  ]

  -- `load_or_create_secret_key`
  unfoldable pub load_or_create_secret_key :
      ServerConfig → Environment → FileSystem → List ℕ → Result (List ℕ) × FileSystem
  load_or_create_secret_key config env fs generated = elim config.secret_key [
    | some key_str ↦ (parse_secret_key_hex key_str, fs)
    | none ↦ elim config.key_file [
      | some path ↦ (
        with_context (read_to_string fs path) ("Failed to read key file at " ++ path)
            >>= parse_secret_key_hex,
        fs,
      )
      | none ↦ find_or_create env fs generated
    ]
  ]
