-- ===== src/Protocol.antt =====
-- src/protocol.rs: the messages between client and server. postcard, which turns them into bytes,
-- is a parameter, `Wire`.
pub mod Frame
use joycast.Prelude.{ℕ, String, List, Option}
use joycast.Prelude.Int.{ℤ}
use joycast.Prelude.Outcome.{Result, Codec}

-- a `u16` or an `i32` is kept as the number that it stands for
pub record AbsAxisWire : Type 0 where
  pub code : ℕ
  pub value : ℤ
  pub minimum : ℤ
  pub maximum : ℤ
  pub fuzz : ℤ
  pub flat : ℤ
  pub resolution : ℤ

pub record DeviceMetadata : Type 0 where
  pub name : String
  pub bustype : ℕ
  pub vendor : ℕ
  pub product : ℕ
  pub version : ℕ
  pub keys : List ℕ
  pub abs_axes : List AbsAxisWire
  pub rel_axes : List ℕ

pub record EventWire : Type 0 where
  pub type_ : ℕ
  pub code : ℕ
  pub value : ℤ

pub data AckStatus : Type 0 where
  approved pending_approval rejected : AckStatus

pub record HandshakePayload : Type 0 where
  pub client_id : String
  pub client_hostname : String
  pub metadata : DeviceMetadata
  pub device_id : Option String

pub data Message : Type 0 where
  handshake : HandshakePayload → Message
  handshake_ack : (status : AckStatus) (server_hostname message : String) → Message
  events : List EventWire → Message
  ping : Message
  pong : Message

-- postcard's `to_allocvec` and `from_bytes`
abbrev pub Wire : Type 0
Wire = Codec Message (List ℕ)

-- `Message::encode`
abbrev pub encode : Wire → Message → Result (List ℕ)
encode wire message = wire.encode message

-- `Message::decode`
abbrev pub decode : Wire → List ℕ → Result Message
decode wire bytes = wire.decode bytes
