-- ===== src/Client/Iroh.antt =====
-- `run_iroh_client` of src/client.rs, from the open stream on: one arm of a `select!`, or one frame
-- that is awaited, at a time. What a phase does not poll changes nothing.
pub mod Forwarding
pub mod Admission
use Prim.Native.Char.{Char}
use Prim.Native.String.{◌++◌}
use mathlib.Core.List.{◌++◌ as append}
use joycast.Prelude.{String, Bool, true, false, Option, none, some, List, [], ◌∷◌}
use joycast.Prelude.Outcome.{Result, ok, err, with_context, Codec}
use joycast.Prelude.Files.{FileSystem}
use joycast.Protocol.{
  DeviceMetadata, Message, handshake, handshake_ack, events, ping, pong, AckStatus, approved,
  pending_approval, rejected, HandshakePayload,
}
use joycast.History.{KnownServerInfo, with_path, record_connection}
use joycast.Device.{Device, KeyCodes, extract_metadata}
use joycast.Device.Output.{InputEvent}
use joycast.Client.{
  ReconnectingDevice, reconnecting, try_reopen, event_message, DeviceSelection,
  try_open_initial_device,
}
use joycast.Client.Udp.{Config}

pub data Phase : Type 0 where
  -- no device yet
  waiting : Phase
  -- no device yet, and a keepalive that the server has not answered
  ponging : Phase
  -- the handshake is written for the device that was opened at this path
  acking : DeviceMetadata → String → Phase
  -- the main loop, and whether `event_stream` is there
  forwarding : ReconnectingDevice → Bool → Phase
  -- `run_res`
  ended : Result (Unit {0}) → Phase

pub record IrohClient : Type 0 where
  pub phase : Phase
  pub device_selection : DeviceSelection
  pub files : FileSystem
  -- the messages that were written, oldest first
  pub sent : List Message

-- the client when its stream is open
abbrev pub begun : DeviceSelection → FileSystem → IrohClient
begun selection files = record {
  phase = waiting;
  device_selection = selection;
  files = files;
  sent = [];
}

-- What a step meets: the answer of `write_frame`, the devices, whether an event stream can be opened,
-- the host's name and the clock.
pub record World : Type 0 where
  pub write : Message → Result (Unit {0})
  pub opened : String → Result Device
  pub devices : List (String × Device)
  pub stream : Result (Unit {0})
  pub hostname : String
  pub utc : String

pub data Arm : Type 0 where
  reconnect_tick keepalive_tick : Arm
  event : InputEvent → Arm
  -- `Some(Err(_))` and `None` of the event stream
  disconnected : Arm
  -- `read_frame`
  received : Result Message → Arm
  -- the timeout of the answer to a keepalive
  timed_out : Arm

abbrev pub return_err : String → IrohClient → IrohClient
return_err e c = record c { phase = ended (err e) }

-- `write_frame(&mut send, &message).await?`
unfoldable pub write : World → Message → Phase → IrohClient → IrohClient
write w message next c = elim (w.write message) [
  | ok u ↦ record c { phase = next; sent = append c.sent (message ∷ []) }
  | err e ↦ return_err e c
]

-- what follows the opening of the first device
unfoldable pub greet_found : Config → World → Option (Device × String) → IrohClient → IrohClient
greet_found config w none c = c
greet_found config w (some (device, path)) c =
    let payload : HandshakePayload = record {
      client_id = config.client_id;
      client_hostname = w.hostname;
      metadata = extract_metadata device;
      device_id = some path;
    } in
    write w (handshake payload) (acking (extract_metadata device) path) c

-- the arms of the first loop
unfoldable pub on_waiting :
    KeyCodes → (Char → String) → Config → World → Arm → IrohClient → IrohClient
on_waiting codes unicode config w reconnect_tick c =
    let (found, selection) =
      try_open_initial_device codes unicode w.opened w.devices c.device_selection in
    greet_found config w found (record c { device_selection = selection })
on_waiting codes unicode config w keepalive_tick c = write w ping ponging c
on_waiting codes unicode config w _ c = c

-- the rest of the keepalive's arm, up to its answer; `debug` is the derived `Debug`
unfoldable pub on_ponging : (Message → String) → Arm → IrohClient → IrohClient
on_ponging debug (received (ok pong)) c = record c { phase = waiting }
on_ponging debug (received (ok response)) c =
    return_err ("Expected Pong while waiting for controller, got: " ++ debug response) c
on_ponging debug (received (err e)) c = return_err e c
on_ponging debug timed_out c = return_err "Server did not answer controller-wait keepalive" c
on_ponging debug _ c = c

-- the start of the main loop
unfoldable pub start : World → DeviceMetadata → String → IrohClient → IrohClient
start w metadata path c =
    elim (with_context w.stream "Failed to create async event stream for device") [
      | err e ↦ return_err e c
      | ok u ↦ record c { phase = forwarding (reconnecting path metadata) true }
    ]

-- the device is back, or not
unfoldable pub reopen : World → ReconnectingDevice → IrohClient → IrohClient
reopen w r c =
    let (found, r') = try_reopen w.devices r in
    elim found [
      | none ↦ record c { phase = forwarding r' false }
      | some device ↦ elim w.stream [
        | ok u ↦ record c { phase = forwarding r' true }
        | err e ↦ record c { phase = forwarding r' false }
      ]
    ]

-- the arms of the main loop, with an event stream or without one
unfoldable pub on_forwarding : World → ReconnectingDevice → Bool → Arm → IrohClient → IrohClient
on_forwarding w r true (event e) c = write w (event_message e) c.phase c
on_forwarding w r true disconnected c = record c { phase = forwarding r false }
on_forwarding w r false reconnect_tick c = reopen w r c
on_forwarding w r stream keepalive_tick c = write w ping c.phase c
on_forwarding w r stream (received (err e)) c = return_err "Server connection closed" c
on_forwarding w r stream _ c = c

module _ (debug : Message → String) (json : Codec (List KnownServerInfo) String) where
  -- the acknowledgment
  unfoldable pub on_ack :
      Config
      → World
      → DeviceMetadata
      → String
      → AckStatus
      → (server_hostname message : String) → IrohClient
      → IrohClient
  on_ack config w metadata path approved server_hostname message c =
      let recorded =
        record_connection json server_hostname config.target_raw "Iroh P2P" w.utc c.files
          (with_path json c.files config.history_path) in
      start w metadata path (record c { files = recorded.1 })
  on_ack config w metadata path pending_approval server_hostname message c =
      return_err "Connection pending server authorization." c
  on_ack config w metadata path rejected server_hostname message c =
      return_err ("Server rejected connection: " ++ message) c

  -- the frame that answers the handshake
  unfoldable pub on_reply :
      Config → World → DeviceMetadata → String → Message → IrohClient → IrohClient
  on_reply config w metadata path (handshake_ack status server_hostname message) c =
      on_ack config w metadata path status server_hostname message c
  on_reply config w metadata path other c =
      return_err ("Expected HandshakeAck from server, got: " ++ debug other) c

  -- while the acknowledgment is awaited
  unfoldable pub on_acking :
      Config → World → DeviceMetadata → String → Arm → IrohClient → IrohClient
  on_acking config w metadata path (received (ok message)) c =
      on_reply config w metadata path message c
  on_acking config w metadata path (received (err e)) c = return_err e c
  on_acking config w metadata path _ c = c

  unfoldable pub on_phase :
      KeyCodes → (Char → String) → Config → World → Phase → Arm → IrohClient → IrohClient
  on_phase codes unicode config w waiting arm c = on_waiting codes unicode config w arm c
  on_phase codes unicode config w ponging arm c = on_ponging debug arm c
  on_phase codes unicode config w (acking metadata path) arm c =
      on_acking config w metadata path arm c
  on_phase codes unicode config w (forwarding r stream) arm c = on_forwarding w r stream arm c
  on_phase codes unicode config w (ended r) arm c = c

  -- one step of the client
  unfoldable pub step : KeyCodes → (Char → String) → Config → World → Arm → IrohClient → IrohClient
  step codes unicode config w arm c = on_phase codes unicode config w c.phase arm c

  -- a run of the client
  unfoldable pub steps :
      KeyCodes → (Char → String) → Config → List (World × Arm) → IrohClient → IrohClient
  steps codes unicode config [] c = c
  steps codes unicode config ((w, arm) ∷ rest) c =
      steps codes unicode config rest (step codes unicode config w arm c)
