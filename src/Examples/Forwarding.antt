-- ===== src/Examples/Forwarding.antt =====
-- The client on concrete devices, servers and events.
use joycast.Prelude.{
  ℕ, zero, suc, String, ◌≡◌, refl, true, false, none, some, List, [], ◌∷◌, ◌++◌, arith, inl, sym,
  ap, ◌∙◌,
}
use joycast.Prelude.Outcome.{Result, ok, err}
use joycast.Prelude.Int.{ℤ, pos, negsuc}
use joycast.Prelude.Map.{string_eq, get}
use joycast.Prelude.Text.{trim, to_lowercase}
use joycast.Protocol.{Message, events, ping, Wire, encode}
use joycast.Transport.{iroh, from_str}
use joycast.Device.{Device, extract_metadata}
use joycast.Device.Output.{InputEvent}
use joycast.Server.Udp.{datagram, step}
use joycast.Server.Udp.Events.{played}
use joycast.Client.{
  ReconnectingDevice, reconnecting, matches, search, try_reopen, event_message, resolve_target,
  from_metadata, same_identity,
}
use joycast.Client.Target.{resolve_target-record_connection}
use joycast.Client.Reopen.{Among, fits, try_reopen-fits, try_reopen-some}
use joycast.Client.Udp as ClientLoop
use joycast.Client.Udp.{
  Phase, forwarding, acking, UdpClient, World, Config, Arm, event, disconnected, timed_out,
}
use joycast.Client.Udp.Forwarding.{Forwards, MayForward, Sends, step-MayForward, step-Forwards}
use joycast.Delivery.{on_wire, step-step}
use joycast.Examples.{only}
use joycast.Examples.Client as Sample
use joycast.Examples.Json as Trusted
use joycast.Examples.Devices.{pad, codes, none_lower}
use joycast.Examples.Sessions.{now, src, playing, entry, one_there, playing_bound}

-- the pad was at event9 and comes back at event4
abbrev pub lost : ReconnectingDevice
lost = reconnecting "/dev/input/event9" (extract_metadata pad)

abbrev pub back : List (String × Device)
back = ("/dev/input/event4", pad) ∷ []

back_fits : fits lost ("/dev/input/event4", pad) ≡ true
unfolding reconnecting matches from_metadata same_identity extract_metadata
back_fits = refl

try_reopen-some_example :
    ((found : Device) × ((try_reopen back lost).0 ≡ some found))
    × (Path String "/dev/input/event4" lost.preferred_path
        → (try_reopen back lost).1.preferred_path ≡ "/dev/input/event4")
try_reopen-some_example = try_reopen-some lost back "/dev/input/event4" pad (inl refl) back_fits

taken : (try_reopen back lost).0 ≡ some pad
unfolding try_reopen search reconnecting matches from_metadata same_identity extract_metadata
taken = refl

try_reopen-fits_example :
    let after = (try_reopen back lost).1 in
    Among (after.preferred_path, pad) back
    × (fits lost (after.preferred_path, pad) ≡ true)
    × (after.identity ≡ lost.identity)
try_reopen-fits_example = try_reopen-fits lost back pad taken

encode_value : ℤ → List ℕ
encode_value (pos v) = zero ∷ v ∷ []
encode_value (negsuc v) = suc zero ∷ v ∷ []

-- a batch of one event, and a ping
encode_event : Message → Result (List ℕ)
unfolding encode_value
encode_event (events (e ∷ [])) = ok (e.type_ ∷ e.code ∷ encode_value e.value)
encode_event ping = ok []
encode_event _ = err "not here"

abbrev one_event : ℕ → ℕ → ℤ → Message
one_event t c v = events (record { type_ = t; code = c; value = v } ∷ [])

decode_event : List ℕ → Result Message
decode_event (t ∷ c ∷ zero ∷ v ∷ []) = ok (one_event t c (pos v))
decode_event (t ∷ c ∷ suc zero ∷ v ∷ []) = ok (one_event t c (negsuc v))
decode_event [] = ok ping
decode_event _ = err "not here"

decode_event-encode_value :
    (t c : ℕ) (v : ℤ) → decode_event (t ∷ c ∷ encode_value v) ≡ ok (one_event t c v)
unfolding encode_value decode_event
decode_event-encode_value t c (pos v) = refl
decode_event-encode_value t c (negsuc v) = refl

decode_nothing : decode_event [] ≡ ok ping
unfolding decode_event
decode_nothing = refl

decode_event-encode_event :
    (m : Message) (bytes : List ℕ) → encode_event m ≡ ok bytes → decode_event bytes ≡ ok m
unfolding encode_event
decode_event-encode_event (events (e ∷ [])) bytes h =
    let same : e.type_ ∷ e.code ∷ encode_value e.value ≡ bytes = ground arith in
    ap decode_event (sym same) ∙ decode_event-encode_value e.type_ e.code e.value
decode_event-encode_event ping bytes h =
    let same : [] ≡ bytes = ground arith in ap decode_event (sym same) ∙ decode_nothing
decode_event-encode_event _ bytes h = ground arith

pub wire : Wire
unfolding encode_event
wire = record {
  encode = encode_event;
  decode = decode_event;
  decode-encode = decode_event-encode_event;
}

abbrev pub press_south : InputEvent
press_south = record { type_ = 1; code = 304; value = pos 1 }

abbrev pub config : Config
config = record { client_id = "c0ffee"; target_raw = "10.0.0.1:80"; history_path = "/h" }

abbrev world : World
world = record {
  send = λ bytes. ok tt;
  opened = λ path. ok pad;
  devices = back;
  stream = ok tt;
  hostname = "deck";
  utc = "2026-01-04";
}

abbrev in_phase : Phase → UdpClient
in_phase ph = record {
  phase = ph;
  device_selection = record { requested_path = none; keyboard = false; mouse = false; all = false };
  files = only "/h" "";
  sent = [];
}

pub press_encoded : encode wire (event_message press_south) ≡ ok (1 ∷ 304 ∷ 0 ∷ 1 ∷ [])
unfolding wire encode_event encode_value event_message
press_encoded = refl

pub ping_encoded : encode wire ping ≡ ok []
unfolding wire encode_event
ping_encoded = refl

pub release_encoded :
    encode wire (event_message (record { type_ = 1; code = 304; value = pos 0 }))
    ≡ ok (1 ∷ 304 ∷ 0 ∷ 0 ∷ [])
unfolding wire encode_event encode_value event_message
release_encoded = refl

step-step_example :
    ((ClientLoop.step wire Sample.json codes none_lower config world
        (event press_south)
        (in_phase (forwarding lost true))).sent
      ≡ [] ++ (1 ∷ 304 ∷ 0 ∷ 1 ∷ []) ∷ [])
    × (get
          (step wire Trusted.json now (datagram (1 ∷ 304 ∷ 0 ∷ 1 ∷ []) src) playing).server.sessions
          "c0ffee:pad1"
        ≡ some (played now (on_wire press_south ∷ []) entry ([] ++ (press_south ∷ []) ∷ [])))
step-step_example =
    step-step wire Trusted.json Sample.json codes none_lower config world press_south lost
      (in_phase (forwarding lost true)) (1 ∷ 304 ∷ 0 ∷ 1 ∷ []) now src playing "c0ffee:pad1" entry
      refl press_encoded refl (λ b. refl) playing_bound one_there

all_sent : Sends wire Sample.json codes none_lower world
unfolding wire encode_event event_message
all_sent = record {
  takes = λ bytes. refl;
  ping_encodes = ([], refl);
  event_encodes = λ e. (e.type_ ∷ e.code ∷ encode_value e.value, refl);
}

step-Forwards_example : Forwards wire Sample.json codes none_lower lost (
    ClientLoop.step wire Sample.json codes none_lower config world disconnected
      (in_phase (forwarding lost true)))
step-Forwards_example =
    step-Forwards wire Sample.json codes none_lower config world disconnected
      (in_phase (forwarding lost true)) lost true all_sent refl

abbrev acked : UdpClient
acked = in_phase (acking (extract_metadata pad) "/dev/input/event9")

begun :
    (ClientLoop.step wire Sample.json codes none_lower config world timed_out acked).phase
    ≡ forwarding lost true
unfolding ClientLoop.step ClientLoop.on_phase ClientLoop.on_acking ClientLoop.start
begun = refl

step-MayForward_example : MayForward wire Sample.json codes none_lower acked.phase timed_out
step-MayForward_example =
    step-MayForward wire Sample.json codes none_lower config world timed_out acked lost true begun

ab_read : from_str Sample.addresses "ab" ≡ ok (iroh 171)
unfolding from_str trim
ab_read = refl

abbrev no_address : String
no_address =
    "Invalid target address 'TRON'. Must be either a valid IP address (e.g., 192.168.1.50:12398) or a valid iroh Node ID."

tron_unread : from_str Sample.addresses "TRON" ≡ err no_address
unfolding from_str trim
tron_unread = refl

same_tron : to_lowercase none_lower (trim "TRON") ≡ to_lowercase none_lower "tron"
unfolding trim to_lowercase
same_tron = refl

resolve_target-record_connection_example :
    resolve_target Sample.addresses none_lower
      (λ s. none)
      Sample.json
      Sample.saved.1
      "/h"
      (some "TRON")
      (err "eof")
    ≡ ok (iroh 171, "ab")
resolve_target-record_connection_example =
    resolve_target-record_connection Sample.addresses none_lower (λ s. none) Sample.json "tron" "ab"
      "Iroh P2P" "2026-01-01" "/h" (only "/h" "") "TRON" no_address (err "eof") (iroh 171)
      Sample.saved_ok refl ab_read tron_unread same_tron
