-- ===== src/Examples/Sessions.antt =====
-- The session table and the two listeners on one approved client, `deck`.
use joycast.Prelude.{String, ◌≡◌, refl, true, some, [], ◌∷◌, ◌++◌, map, if◌then◌else◌, ◌⊎◌, inr}
use joycast.Prelude.Outcome.{ok}
use joycast.Prelude.Int.{pos}
use joycast.Prelude.Map.{string_eq, get, contains_key, insert}
use joycast.Trust.{is_approved, reload}
use joycast.Protocol.{Message, handshake, HandshakePayload, EventWire}
use joycast.Transport.{SocketAddr, socket_v4, socket_addr_eq}
use joycast.Device.{extract_metadata}
use joycast.Device.Output.{VirtualOutput, input_event, new_with_name, add_abs_axes}
use joycast.Server.{SessionEntry, Sessions, Server, Moment, session_key, create_session}
use joycast.Server.Session.{Creates, create_session-Creates}
use joycast.Server.Udp as Datagrams
use joycast.Server.Udp.{Udp}
use joycast.Server.Udp.Access as UdpAccess
use joycast.Server.Udp.Events.{played, on_events_lem}
use joycast.Server.Udp.Served.{IsServed, on_message-IsServed}
use joycast.Server.Iroh as Streams
use joycast.Server.Iroh.Served.{IsStreaming, step-IsStreaming}
use joycast.Server.Iroh.{Phase, greeting, closed, Iroh, Input}
use joycast.Server.Iroh.Access as IrohAccess
use joycast.Examples.Json.{json, decode}
use joycast.Examples.Trust.{at_a, fresh}
use joycast.Examples.Wire.{small, encode_small}
use joycast.Examples.Devices.{pad, willing}

abbrev pub now : Moment
now = record { instant = 5; utc = "2026-01-04"; hostname = "srv"; uinput = willing }

abbrev pub from_deck : HandshakePayload
from_deck = record {
  client_id = "c0ffee";
  client_hostname = "deck";
  metadata = extract_metadata pad;
  device_id = some "pad1";
}

made : (s : Sessions) × (create_session now from_deck [] ≡ ok s)
unfolding create_session new_with_name add_abs_axes extract_metadata
made = (_, refl)

create_session-Creates_example : Creates now from_deck [] made.0
create_session-Creates_example = create_session-Creates now from_deck [] made.0 made.1

abbrev device : VirtualOutput
device = record {
  name = "deck: Pad (Joycast)";
  device = record {
    setup = record {
      name = "deck: Pad (Joycast)";
      bustype = 3;
      vendor = 1356;
      product = 2508;
      version = 1;
      keys = 304 ∷ [];
      rel_axes = [];
      abs_axes = [];
    };
    emitted = [];
  };
}

abbrev pub entry : SessionEntry
entry = record { vdev = device; last_active = 3; client_hostname = "deck" }

abbrev pub one : Sessions
one = ("c0ffee:pad1", entry) ∷ []

pub one_there : get one "c0ffee:pad1" ≡ some entry
unfolding get
one_there = refl

abbrev pub server : Server
server = record { files = at_a; trust = fresh; sessions = [] }

abbrev pub src : SocketAddr
src = socket_v4 167772162 40000

abbrev idle : Udp
idle = record { server = server; client_sessions = []; sent = [] }

has_session :
    contains_key
      (Datagrams.on_message small json now src (handshake from_deck) idle).server.sessions
      "c0ffee:pad1"
    ≡ true
unfolding Datagrams.on_message Datagrams.on_handshake contains_key get is_approved reload decode
    Datagrams.admit Datagrams.received create_session new_with_name extract_metadata add_abs_axes
    Datagrams.bind_session Datagrams.send encode_small insert session_key
has_session = refl

on_message-Entitled_example :
    (contains_key idle.server.sessions "c0ffee:pad1" ≡ true)
    ⊎ UdpAccess.Entitled small json idle (handshake from_deck) "c0ffee:pad1"
on_message-Entitled_example =
    UdpAccess.on_message-Entitled small json now src (handshake from_deck) idle "c0ffee:pad1"
      has_session

abbrev press : EventWire
press = record { type_ = 1; code = 304; value = pos 1 }

abbrev pub playing : Udp
playing = record {
  server = record server { sessions = one };
  client_sessions = (src, "c0ffee:pad1") ∷ [];
  sent = [];
}

pub playing_bound : get playing.client_sessions src ≡ some "c0ffee:pad1"
unfolding get
playing_bound = refl

on_events_lem_example :
    let after = Datagrams.on_events small json now src (press ∷ []) playing in
    ((k : String)
      → get after.server.sessions k ≡ (
          if string_eq.beq "c0ffee:pad1" k
          then some (played now (press ∷ []) entry ([] ++ map input_event (press ∷ []) ∷ []))
          else get one k))
    × (after.client_sessions ≡ playing.client_sessions)
    × (after.server.trust ≡ fresh)
    × (after.server.files ≡ at_a)
    × (after.sent ≡ [])
on_events_lem_example =
    on_events_lem small json now src [] press playing "c0ffee:pad1" entry (λ b. refl) playing_bound
      one_there

abbrev pub opened : Iroh
opened = record { server = server; phase = greeting; sent = [] }

abbrev pub said : HandshakePayload → Input
said p = record { read = ok (handshake p); write = λ m. ok tt }

abbrev pub debug : Message → String
debug m = "message"

stream_session :
    contains_key (Streams.step json debug now (said from_deck) opened).server.sessions "c0ffee:pad1"
    ≡ true
unfolding Streams.step Streams.on_read contains_key get Streams.on_greeting Streams.on_handshake
    is_approved reload decode Streams.enter Streams.checked create_session new_with_name
    extract_metadata add_abs_axes Streams.write insert session_key
stream_session = refl

step-Entitled_example :
    (contains_key opened.server.sessions "c0ffee:pad1" ≡ true)
    ⊎ IrohAccess.Entitled json opened (said from_deck) "c0ffee:pad1"
step-Entitled_example =
    IrohAccess.step-Entitled json debug now (said from_deck) opened "c0ffee:pad1" stream_session

deck_known : (is_approved json "c0ffee" at_a fresh).0 ≡ true
unfolding is_approved reload decode contains_key get
deck_known = refl

on_message-IsServed_example :
    IsServed small json now src from_deck
      (Datagrams.on_message small json now src (handshake from_deck) idle)
on_message-IsServed_example =
    on_message-IsServed small json now src from_deck idle deck_known (inr made)

step-IsStreaming_example :
    IsStreaming now from_deck [] (Streams.step json debug now (said from_deck) opened)
step-IsStreaming_example =
    step-IsStreaming json debug now (said from_deck) from_deck opened refl refl (λ m. refl)
      deck_known (inr made)
