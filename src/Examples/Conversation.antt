-- ===== src/Examples/Conversation.antt =====
-- An Iroh connection on a concrete client and server: from the wait for a device to its events.
use joycast.Prelude.{◌≡◌, refl, true, false, none, List, [], ◌∷◌}
use joycast.Prelude.Outcome.{Result, ok}
use joycast.Prelude.Map.{string_eq, get, contains_key, insert}
use joycast.Prelude.Sort.{sort_by}
use joycast.Protocol.{Message}
use joycast.Device.{extract_metadata, classify_device, has_gamepad_btn, has}
use joycast.Device.Listing.{list_devices_filtered, is_noise_device}
use joycast.Device.Output.{new_with_name, add_abs_axes}
use joycast.Server.{create_session, session_key}
use joycast.Prelude.Files.{read_to_string}
use joycast.Trust.Disk.{stored}
use joycast.Server.Reaction.{consult, remember}
use joycast.Server.Iroh as Handler
use joycast.Server.Iroh.Turns as Turns
use joycast.Client.{DeviceSelection, event_message, try_open_initial_device, reconnecting}
use joycast.Client.Iroh as Client
use joycast.Client.Iroh.{World, reconnect_tick, keepalive_tick, event}
use joycast.Connection.{
  BothEnds, opened, Turn, acts, hears, handler_turns, client_reads, handler_reads, turn, run,
}
use joycast.Connection.Grant.{WasGranted, run-WasGranted}
use joycast.Connection.Run.{Understands, run-Understands}
use joycast.Examples.{only}
use joycast.Examples.Client as Sample
use joycast.Examples.Json as Trusted
use joycast.Examples.Devices.{pad, codes, none_lower}
use joycast.Examples.Forwarding.{back, press_south, config}
use joycast.Examples.Sessions.{now, debug, server}

abbrev world : World
world = record {
  write = λ m. ok tt;
  opened = λ path. ok pad;
  devices = back;
  stream = ok tt;
  hostname = "deck";
  utc = "2026-01-04";
}

abbrev selection : DeviceSelection
selection = record { requested_path = none; keyboard = false; mouse = false; all = false }

abbrev takes : Message → Result (Unit {0})
takes m = ok tt

-- a keepalive and its answer, the handshake for the pad, the pieces of the reaction to it and the
-- acknowledgment, and an event
abbrev turns : List Turn
turns =
    acts world keepalive_tick
    ∷ handler_turns now takes
    ∷ hears world
    ∷ acts world reconnect_tick
    ∷ handler_turns now takes
    ∷ handler_turns now takes
    ∷ handler_turns now takes
    ∷ acts world keepalive_tick
    ∷ handler_turns now takes
    ∷ handler_turns now takes
    ∷ hears world
    ∷ acts world (event press_south)
    ∷ []

abbrev ends : BothEnds
ends =
    run Trusted.json Sample.json debug codes none_lower config turns
      (opened selection (only "/h" "") server)

ends_streaming : ends.handler.phase ≡ Handler.streaming "c0ffee:/dev/input/event4"
unfolding run turn client_reads handler_reads Client.step Client.on_phase Client.on_waiting
    Client.greet_found Client.on_ponging try_open_initial_device list_devices_filtered sort_by
    classify_device has_gamepad_btn has is_noise_device Client.write Client.on_acking
    Client.on_reply Client.on_ack Client.start Client.on_forwarding Turns.turn Turns.receive
    Turns.advance Turns.at consult remember stored Handler.on_read Handler.on_greeting Handler.enter
    Handler.write read_to_string Trusted.decode contains_key get insert create_session new_with_name
    extract_metadata add_abs_axes session_key
ends_streaming = refl

ends_forwarding :
    ends.client.phase
    ≡ Client.forwarding (reconnecting "/dev/input/event4" (extract_metadata pad)) true
unfolding run turn client_reads handler_reads Client.step Client.on_phase Client.on_waiting
    Client.greet_found Client.on_ponging try_open_initial_device list_devices_filtered sort_by
    classify_device has_gamepad_btn has is_noise_device Client.write Client.on_acking
    Client.on_reply Client.on_ack Client.start Client.on_forwarding Turns.turn Turns.receive
    Turns.advance Turns.at consult remember stored Handler.on_read Handler.on_greeting Handler.enter
    Handler.write read_to_string Trusted.decode contains_key get insert create_session new_with_name
    extract_metadata add_abs_axes session_key
ends_forwarding = refl

ends_sent : ends.client.sent ≡ event_message press_south ∷ []
unfolding run turn client_reads handler_reads Client.step Client.on_phase Client.on_waiting
    Client.greet_found Client.on_ponging try_open_initial_device list_devices_filtered sort_by
    classify_device has_gamepad_btn has is_noise_device Client.write Client.on_acking
    Client.on_reply Client.on_ack Client.start Client.on_forwarding Turns.turn Turns.receive
    Turns.advance Turns.at consult remember stored Handler.on_read Handler.on_greeting Handler.enter
    Handler.write read_to_string Trusted.decode contains_key get insert create_session new_with_name
    extract_metadata add_abs_axes session_key
ends_sent = refl

run-Understands_example :
    Understands Trusted.json Sample.json debug codes none_lower config world now ends
run-Understands_example =
    run-Understands Trusted.json Sample.json debug codes none_lower config world now selection
      (only "/h" "") server turns

run-WasGranted_example :
    WasGranted Trusted.json Sample.json debug codes none_lower config turns
      (opened selection (only "/h" "") server)
run-WasGranted_example =
    run-WasGranted Trusted.json Sample.json debug codes none_lower config selection (only "/h" "")
      server turns (reconnecting "/dev/input/event4" (extract_metadata pad), true, ends_forwarding)
