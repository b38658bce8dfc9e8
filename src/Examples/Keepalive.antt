-- ===== src/Examples/Keepalive.antt =====
-- `deck` pings twice in half an hour, beside another client, and the reaper comes three times.
use joycast.Prelude.{ℕ, ◌*◌, ap, ◌≢◌, refl, List, [], ◌∷◌, arith, inl, inr}
use joycast.Prelude.Map.{string_eq, contains_key, get}
use joycast.Prelude.Map.Laws.{Distinct}
use joycast.Protocol.{handshake, ping}
use joycast.Transport.{SocketAddr, socket_v4}
use joycast.Server.{Moment}
use joycast.Server.Udp.Alive.{Event, message, reaping, written, Timely, run, run-IsKept}
use joycast.Server.Udp.Alive.Messages.{IsKept}
use joycast.Examples.Json.{json}
use joycast.Examples.Wire.{small}
use joycast.Examples.Trust.{at_w}
use joycast.Examples.Devices.{willing}
use joycast.Examples.Sessions.{src, playing, playing_bound, one, one_there, entry, from_deck}

abbrev second : ℕ → Moment
second n = record {
  instant = n * 1_000_000_000;
  utc = "2026-01-04";
  hostname = "srv";
  uinput = willing;
}

abbrev elsewhere : SocketAddr
elsewhere = socket_v4 167772163 40000

abbrev half_hour : List Event
half_hour =
    reaping 800_000_000_000
    ∷ message (second 850) src ping
    ∷ message (second 860) elsewhere (handshake from_deck)
    ∷ written at_w
    ∷ reaping 1_700_000_000_000
    ∷ message (second 1_710) src ping
    ∷ reaping 1_800_000_000_000
    ∷ []

host : SocketAddr → ℕ
host (socket_v4 address port) = address
host _ = 0

differs : elsewhere ≢ src
unfolding host
differs e = absurd (omega (arith, ap host e))

half_hour-Timely : Timely src 3 half_hour
half_hour-Timely = (
  omega arith,
  (
    omega arith,
    inl (
      refl,
      tt,
      (omega arith, inr (differs, (omega arith, (omega arith, inl (refl, tt, (omega arith, tt)))))),
    ),
  ),
)

one-Distinct : Distinct one
unfolding contains_key get
one-Distinct = (refl, tt)

run-IsKept_example :
    (last : ℕ) × IsKept small json src "c0ffee:pad1" entry.vdev.device.setup last
      (run small json half_hour playing)
run-IsKept_example =
    run-IsKept small json src "c0ffee:pad1" entry.vdev.device.setup half_hour 3 playing
      half_hour-Timely
      (record {
        bound = playing_bound;
        lasts = (entry, one_there, omega arith, refl);
        distinct = one-Distinct;
      })
