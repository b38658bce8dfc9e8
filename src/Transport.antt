-- ===== src/Transport.antt =====
-- src/transport.rs: the address of a server, an IP socket address or an Iroh node id. The parsers of
-- the three forms are the standard library's and Iroh's.
pub mod Parse
use joycast.Prelude.{ℕ, String, ◌≡◌, Bool, true, false, ◌&&◌, Option, none, some, ◌↔◌, arith, eqb}
use Prim.Native.String.{◌++◌}
use joycast.Prelude.Outcome.{Result, ok, err}
use joycast.Prelude.Map.{Eq}
use joycast.Prelude.Text.{trim}

abbrev pub default_port : ℕ
default_port = 12398

-- `IpAddr`: the address as a number of 32 or of 128 bits
pub data IpAddr : Type 0 where
  v4 v6 : ℕ → IpAddr

-- `SocketAddr`; an IPv6 one has also its flow label and scope
pub data SocketAddr : Type 0 where
  socket_v4 : (ip port : ℕ) → SocketAddr
  socket_v6 : (ip port flowinfo scope_id : ℕ) → SocketAddr

-- `SocketAddr::new`
unfoldable pub socket_addr : IpAddr → ℕ → SocketAddr
socket_addr (v4 ip) port = socket_v4 ip port
socket_addr (v6 ip) port = socket_v6 ip port 0 0

abbrev pub socket_beq : SocketAddr → SocketAddr → Bool
socket_beq (socket_v4 a p) (socket_v4 b q) = eqb a b && eqb p q
socket_beq (socket_v6 a p f s) (socket_v6 b q g t) = eqb a b && eqb p q && eqb f g && eqb s t
socket_beq _ _ = false

pub socket_beq_iff : (a b : SocketAddr) → (socket_beq a b ≡ true) ↔ (a ≡ b)
socket_beq_iff a b = ground arith

instance abbrev pub socket_addr_eq : Eq SocketAddr
socket_addr_eq = record { beq = socket_beq; beq_iff = socket_beq_iff }

-- an Iroh `PublicKey`, by its bytes as a number
pub data TargetAddress : Type 0 where
  ip : SocketAddr → TargetAddress
  iroh : ℕ → TargetAddress

-- `TargetAddress::display_type`
unfoldable pub display_type : TargetAddress → String
display_type (ip addr) = "Direct IP"
display_type (iroh pk) = "Iroh P2P"

-- What the standard library and Iroh parse and print.
pub record Addresses : Type 0 where
  pub parse_socket_addr : String → Option SocketAddr
  pub parse_ip_addr : String → Option IpAddr
  pub parse_public_key : String → Option ℕ
  pub print_socket_addr : SocketAddr → String
  pub print_public_key : ℕ → String

module _ (addresses : Addresses) where
  -- `Display` of `TargetAddress`
  unfoldable pub display : TargetAddress → String
  display (ip addr) = addresses.print_socket_addr addr
  display (iroh pk) = addresses.print_public_key pk

  -- `TargetAddress::from_str`
  unfoldable pub from_str : String → Result TargetAddress
  from_str text =
      let s = trim text in
      elim (addresses.parse_socket_addr s) [
        | some addr ↦ ok (ip addr)
        | none ↦ elim (addresses.parse_ip_addr s) [
          | some addr ↦ ok (ip (socket_addr addr default_port))
          | none ↦ elim (addresses.parse_public_key s) [
            | some pk ↦ ok (iroh pk)
            | none ↦ err (
                "Invalid target address '" ++ s
                ++ "'. Must be either a valid IP address (e.g., 192.168.1.50:12398) or a valid iroh Node ID.")
          ]
        ]
      ]
