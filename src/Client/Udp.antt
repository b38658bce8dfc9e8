-- ===== src/Client/Udp.antt =====
-- `run_udp_client` of src/client.rs, from the connected socket on: one arm of a `select!`, or one
-- message while the acknowledgment is awaited, at a time. What a phase does not poll changes nothing.
pub mod Forwarding
use Prim.Native.Char.{Char}
use Prim.Native.String.{◌++◌}
use mathlib.Core.List.{◌++◌ as append}
use joycast.Prelude.{ℕ, String, Bool, true, false, Option, none, some, List, [], ◌∷◌}
use joycast.Prelude.Outcome.{Result, ok, err, ◌>>=◌, ◌>>◌, with_context, Codec}
use joycast.Prelude.Files.{FileSystem}
use joycast.Protocol.{
  DeviceMetadata, Message, handshake, handshake_ack, events, ping, pong, AckStatus, approved,
  pending_approval, rejected, HandshakePayload, Wire, encode, decode,
}
use joycast.History.{KnownServerInfo, with_path, record_connection}
use joycast.Device.{Device, KeyCodes, extract_metadata}
use joycast.Device.Output.{InputEvent}
use joycast.Client.{
  ReconnectingDevice, reconnecting, try_reopen, event_message, DeviceSelection,
  try_open_initial_device,
}

pub data Phase : Type 0 where
  -- no device yet
  waiting : Phase
  -- the handshake is sent for the device that was opened at this path
  acking : DeviceMetadata → String → Phase
  -- the main loop, and whether `event_stream` is there
  forwarding : ReconnectingDevice → Bool → Phase
  -- the function has returned
  ended : Result (Unit {0}) → Phase

-- The arguments that stay: `history_path` is the path of the history store.
pub record Config : Type 0 where
  pub client_id : String
  pub target_raw : String
  pub history_path : String

pub record UdpClient : Type 0 where
  pub phase : Phase
  pub device_selection : DeviceSelection
  pub files : FileSystem
  -- the datagrams that the socket took, oldest first
  pub sent : List (List ℕ)

-- the client when its socket is connected
abbrev pub begun : DeviceSelection → FileSystem → UdpClient
begun selection files = record {
  phase = waiting;
  device_selection = selection;
  files = files;
  sent = [];
}

-- What a step meets: the socket's answer to a datagram, the devices, whether an event stream can be
-- opened, the host's name and the clock.
pub record World : Type 0 where
  pub send : List ℕ → Result (Unit {0})
  pub opened : String → Result Device
  pub devices : List (String × Device)
  pub stream : Result (Unit {0})
  pub hostname : String
  pub utc : String

pub data Arm : Type 0 where
  reconnect_tick keepalive_tick : Arm
  event : InputEvent → Arm
  -- `Some(Err(_))` and `None` of the event stream
  disconnected : Arm
  -- `socket.recv`
  received : Result (List ℕ) → Arm
  -- the four seconds for the acknowledgment are over
  timed_out : Arm

abbrev pub return_err : String → UdpClient → UdpClient
return_err e c = record c { phase = ended (err e) }

module _ (wire : Wire) where
  -- a message is encoded and sent with `?` on both
  unfoldable pub post :
      World → Message → (no_encoding no_sending : String) → Phase → UdpClient → UdpClient
  post w message no_encoding no_sending next c =
      elim (with_context (encode wire message) no_encoding) [
        | err e ↦ return_err e c
        | ok bytes ↦ elim (with_context (w.send bytes) no_sending) [
          | err e ↦ return_err e c
          | ok u ↦ record c { phase = next; sent = append c.sent (bytes ∷ []) }
        ]
      ]

  unfoldable pub keepalive : World → UdpClient → UdpClient
  keepalive w c = post w ping "Failed to encode keepalive" "Failed to send UDP keepalive" c.phase c

  -- what follows the opening of the first device
  unfoldable pub greet : Config → World → Device → String → UdpClient → UdpClient
  greet config w device path c =
      let payload : HandshakePayload = record {
        client_id = config.client_id;
        client_hostname = w.hostname;
        metadata = extract_metadata device;
        device_id = some path;
      } in
      post w (handshake payload) "Failed to encode handshake" "Failed to send handshake UDP packet"
        (acking (extract_metadata device) path) c

  unfoldable pub greet_found : Config → World → Option (Device × String) → UdpClient → UdpClient
  greet_found config w none c = c
  greet_found config w (some (device, path)) c = greet config w device path c

  -- the arms of the first loop
  unfoldable pub on_waiting :
      KeyCodes → (Char → String) → Config → World → Arm → UdpClient → UdpClient
  on_waiting codes unicode config w reconnect_tick c =
      let (found, selection) =
        try_open_initial_device codes unicode w.opened w.devices c.device_selection in
      greet_found config w found (record c { device_selection = selection })
  on_waiting codes unicode config w keepalive_tick c = keepalive w c
  on_waiting codes unicode config w _ c = c

  -- the start of the main loop
  unfoldable pub start : World → DeviceMetadata → String → UdpClient → UdpClient
  start w metadata path c =
      elim (with_context w.stream "Failed to create async event stream for device") [
        | err e ↦ return_err e c
        | ok u ↦ record c { phase = forwarding (reconnecting path metadata) true }
      ]

  module _ (json : Codec (List KnownServerInfo) String) where
    -- the acknowledgment
    unfoldable pub on_ack :
        Config
        → World
        → DeviceMetadata
        → String
        → AckStatus
        → (server_hostname message : String) → UdpClient
        → UdpClient
    on_ack config w metadata path approved server_hostname message c =
        let recorded =
          record_connection json server_hostname config.target_raw "Direct UDP" w.utc c.files
            (with_path json c.files config.history_path) in
        start w metadata path (record c { files = recorded.1 })
    on_ack config w metadata path pending_approval server_hostname message c =
        return_err "Connection pending server authorization." c
    on_ack config w metadata path rejected server_hostname message c =
        return_err ("Server rejected connection: " ++ message) c

    -- a decoded datagram: the loop goes on until one is an acknowledgment
    unfoldable pub on_reply :
        Config → World → DeviceMetadata → String → Result Message → UdpClient → UdpClient
    on_reply config w metadata path (ok (handshake_ack status server_hostname message)) c =
        on_ack config w metadata path status server_hostname message c
    on_reply config w metadata path _ c = c

    -- while the acknowledgment is awaited
    unfoldable pub on_acking :
        Config → World → DeviceMetadata → String → Arm → UdpClient → UdpClient
    on_acking config w metadata path (received (ok bytes)) c =
        on_reply config w metadata path (decode wire bytes) c
    on_acking config w metadata path (received (err e)) c =
        return_err ("Error receiving HandshakeAck: " ++ e) c
    on_acking config w metadata path timed_out c = start w metadata path c
    on_acking config w metadata path _ c = c

    -- the device is back, or not
    unfoldable pub reopen : World → ReconnectingDevice → UdpClient → UdpClient
    reopen w r c =
        let (found, r') = try_reopen w.devices r in
        elim found [
          | none ↦ record c { phase = forwarding r' false }
          | some device ↦ elim w.stream [
            | ok u ↦ record c { phase = forwarding r' true }
            | err e ↦ record c { phase = forwarding r' false }
          ]
        ]

    -- the arms of the main loop, with an event stream or without one
    unfoldable pub on_forwarding : World → ReconnectingDevice → Bool → Arm → UdpClient → UdpClient
    on_forwarding w r true (event e) c =
        post w (event_message e) "Failed to encode input event" "Failed to send UDP input event"
          c.phase c
    on_forwarding w r true disconnected c = record c { phase = forwarding r false }
    on_forwarding w r false reconnect_tick c = reopen w r c
    on_forwarding w r stream keepalive_tick c = keepalive w c
    on_forwarding w r stream _ c = c

    unfoldable pub on_phase :
        KeyCodes → (Char → String) → Config → World → Phase → Arm → UdpClient → UdpClient
    on_phase codes unicode config w waiting arm c = on_waiting codes unicode config w arm c
    on_phase codes unicode config w (acking metadata path) arm c =
        on_acking config w metadata path arm c
    on_phase codes unicode config w (forwarding r stream) arm c = on_forwarding w r stream arm c
    on_phase codes unicode config w (ended r) arm c = c

    -- one step of the client
    unfoldable pub step : KeyCodes → (Char → String) → Config → World → Arm → UdpClient → UdpClient
    step codes unicode config w arm c = on_phase codes unicode config w c.phase arm c
