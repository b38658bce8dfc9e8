-- ===== src/Examples/Enrolment.antt =====
-- Two clients that are not approved greet the server, `deck` over Direct UDP and `couch` over Iroh, are
-- approved by the operator, and greet it again.
use joycast.Prelude.{String, ◌≡◌, refl, none, false, [], inr}
use joycast.Prelude.Outcome.{ok}
use joycast.Prelude.Map.{string_eq, contains_key, get, insert, remove}
use joycast.Prelude.Files.{exists, read_to_string}
use joycast.Trust.{TrustManager, no_trust, is_approved, reload, move_approved}
use joycast.Trust.Commands.{approve}
use joycast.Trust.Disk.{current, stored}
use joycast.Trust.Registration.{request}
use joycast.Trust.Enrolment.{CanEnrol}
use joycast.Protocol.{handshake, HandshakePayload}
use joycast.Device.Output.{new_with_name, add_abs_axes}
use joycast.Device.{extract_metadata}
use joycast.Server.{Moment, Sessions, create_session}
use joycast.Server.Udp.{Udp, datagram, on_message}
use joycast.Server.Udp as Datagrams
use joycast.Server.Udp.Served.{IsServed}
use joycast.Server.Udp.Enrolment as UdpEnrolment
use joycast.Server.Iroh.{Iroh, Input, greeting}
use joycast.Server.Iroh as Streams
use joycast.Server.Iroh.Served.{IsStreaming}
use joycast.Server.Iroh.Enrolment as IrohEnrolment
use joycast.Examples.{in_order, only}
use joycast.Examples.Json.{json, encode, decode}
use joycast.Examples.Wire.{small}
use joycast.Examples.Devices.{pad, willing}
use joycast.Examples.Sessions.{from_deck, src, said, debug}

abbrev path : String
path = "/etc/joycast/trusted_clients.json"

abbrev keeper : TrustManager
keeper = record { store_path = path; memory = no_trust }

abbrev at : String → Moment
at utc = record { instant = 7; utc = utc; hostname = "srv"; uinput = willing }

abbrev empty : Udp
empty = record {
  server = record { files = only path "n"; trust = keeper; sessions = [] };
  client_sessions = [];
  sent = [];
}

made : (s : Sessions) × (create_session (at "2026-01-04") from_deck [] ≡ ok s)
unfolding create_session new_with_name add_abs_axes extract_metadata
made = (_, refl)

can :
    CanEnrol json in_order
      (request "c0ffee" "deck" "Pad" "Direct UDP" "2026-01-01")
      "2026-01-02"
      (current json (only path "n") keeper)
unfolding current stored read_to_string encode decode move_approved insert remove
can = (("w", refl), ("a", refl))

barred : (is_approved json "c0ffee" (only path "n") keeper).0 ≡ false
unfolding is_approved reload exists read_to_string decode contains_key get
barred = refl

datagram_enrolment_example :
    let first = Datagrams.on_message small json (at "2026-01-01") src (handshake from_deck) empty in
    let answer = approve json in_order "c0ffee" "2026-01-02" first.server.files keeper in
    let granted : Udp = record first { server = record first.server { files = answer.1 } } in
    (answer.0
      ≡ ok (record {
        client_id = "c0ffee";
        hostname = "deck";
        device_name = "Pad";
        approved_at = "2026-01-02";
      }))
    × IsServed small json
        (at "2026-01-04")
        src
        from_deck
        (Datagrams.on_message small json (at "2026-01-04") src (handshake from_deck) granted)
unfolding extract_metadata
datagram_enrolment_example =
    UdpEnrolment.datagram_enrolment small json in_order (at "2026-01-01") (at "2026-01-04") src src
      from_deck from_deck "2026-01-02" keeper empty refl refl can refl barred refl (inr made)

abbrev from_couch : HandshakePayload
from_couch = record {
  client_id = "beef";
  client_hostname = "couch";
  metadata = record (extract_metadata pad) { name = "Stick" };
  device_id = none;
}

abbrev quiet : Iroh
quiet = record {
  server = record { files = only path "a"; trust = keeper; sessions = [] };
  phase = greeting;
  sent = [];
}

couch_made : (s : Sessions) × (create_session (at "2026-01-06") from_couch [] ≡ ok s)
unfolding create_session new_with_name add_abs_axes extract_metadata
couch_made = (_, refl)

couch_can :
    CanEnrol json in_order
      (request "beef" "couch" "Stick" "Iroh P2P" "2026-01-03")
      "2026-01-05"
      (current json (only path "a") keeper)
unfolding current stored read_to_string encode decode move_approved insert remove
couch_can = (("m", refl), ("c", refl))

couch_barred : (is_approved json "beef" (only path "a") keeper).0 ≡ false
unfolding is_approved reload exists read_to_string decode contains_key get
couch_barred = refl

frame_enrolment_example :
    let first = Streams.step json debug (at "2026-01-03") (said from_couch) quiet in
    let answer = approve json in_order "beef" "2026-01-05" first.server.files keeper in
    let next : Iroh = record {
      server = record first.server { files = answer.1 };
      phase = greeting;
      sent = [];
    } in
    (answer.0
      ≡ ok (record {
        client_id = "beef";
        hostname = "couch";
        device_name = "Stick";
        approved_at = "2026-01-05";
      }))
    × IsStreaming
        (at "2026-01-06")
        from_couch
        []
        (Streams.step json debug (at "2026-01-06") (said from_couch) next)
frame_enrolment_example =
    IrohEnrolment.frame_enrolment json debug in_order (at "2026-01-03") (at "2026-01-06")
      (said from_couch) (said from_couch) from_couch from_couch "2026-01-05" keeper quiet refl refl
      couch_can refl couch_barred refl (inr couch_made) refl refl refl (λ m. refl)
