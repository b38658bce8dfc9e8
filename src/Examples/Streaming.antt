-- ===== src/Examples/Streaming.antt =====
-- The Iroh client and its handler on concrete devices, messages and answers.
use joycast.Prelude.{ℕ, ◌≡◌, refl, true, false, none, List, [], ◌∷◌, arith, ◌⊎◌}
use joycast.Prelude.Outcome.{ok, err}
use joycast.Prelude.Map.{string_eq}
use joycast.Protocol.{Message}
use joycast.Server.{Moment}
use joycast.Server.Iroh.{Iroh, streaming}
use joycast.Server.Iroh.Serve.{serve, is_open, serve-is_open}
use joycast.Client.{DeviceSelection}
use joycast.Client.Iroh as ClientLoop
use joycast.Client.Iroh.{
  Phase, acking, forwarding, IrohClient, World, Arm, reconnect_tick, event, received, begun,
}
use joycast.Client.Iroh.Forwarding.{GoesOn, Breaks, step-GoesOn}
use joycast.Delivery.Order.{AllCalm, spoken, steps-serve}
use joycast.Prelude.{◌++◌, ◌+◌}
use joycast.Prelude.Int.{pos}
use joycast.Prelude.Outcome.{Result}
use joycast.Protocol.{pong}
use joycast.Protocol.Frame.Stream.{AllFit, write_frames}
use joycast.Device.Output.{InputEvent}
use joycast.Server.{SessionEntry}
use joycast.Server.Iroh.Replay.{Serves, emitted}
use joycast.Client.Iroh.{keepalive_tick}
use joycast.Examples.Forwarding.{wire, press_encoded, ping_encoded, release_encoded}
use joycast.Examples.Sessions.{server, one, entry, one_there}
use joycast.Examples.{only}
use joycast.Examples.Client as Sample
use joycast.Examples.Json as Trusted
use joycast.Examples.Devices.{pad, codes, none_lower}
use joycast.Examples.Wire.{small}
use joycast.Examples.Forwarding.{lost, back, press_south, config}
use joycast.Examples.Sessions.{now, debug, opened}

abbrev world : World
world = record {
  write = λ m. ok tt;
  opened = λ path. ok pad;
  devices = back;
  stream = ok tt;
  hostname = "deck";
  utc = "2026-01-04";
}

abbrev selection : DeviceSelection
selection = record { requested_path = none; keyboard = false; mouse = false; all = false }

abbrev in_phase : Phase → IrohClient
in_phase ph = record { phase = ph; device_selection = selection; files = only "/h" ""; sent = [] }

step-GoesOn_example :
    let after =
      ClientLoop.step debug Sample.json codes none_lower config world
        (received (err "reset"))
        (in_phase (forwarding lost true)) in
    GoesOn debug Sample.json codes none_lower lost after
    ⊎ Breaks debug Sample.json codes none_lower world (received (err "reset")) after
step-GoesOn_example =
    step-GoesOn debug Sample.json codes none_lower config world (received (err "reset"))
      (in_phase (forwarding lost true)) lost true refl

-- a ping, and then the stream ends within a frame
abbrev bytes : List ℕ
bytes = 0 ∷ 0 ∷ 0 ∷ 1 ∷ 0 ∷ 0 ∷ 0 ∷ []

serve-is_open_example :
    (is_open (serve small Trusted.json debug (λ i. (now, λ m. ok tt)) 8 0 bytes opened).phase
      ≡ false)
    × (serve small Trusted.json debug (λ i. (now, λ m. ok tt)) 100 0 bytes opened
        ≡ serve small Trusted.json debug (λ i. (now, λ m. ok tt)) 8 0 bytes opened)
serve-is_open_example =
    serve-is_open small Trusted.json debug (λ i. (now, λ m. ok tt)) 8 100 bytes opened (omega arith)
      (omega arith)

abbrev release_south : InputEvent
release_south = record { type_ = 1; code = 304; value = pos 0 }

-- the button is pressed and released, with a keepalive and its answer in between
abbrev pressing : List (World × Arm)
pressing =
    (world, event press_south)
    ∷ (world, keepalive_tick)
    ∷ (world, received (ok pong))
    ∷ (world, event release_south)
    ∷ []

pressing-AllCalm : AllCalm pressing
pressing-AllCalm = (λ m. refl, (λ m. refl, (λ m. refl, (λ m. refl, tt))))

pressing-AllFit : AllFit wire (spoken pressing)
pressing-AllFit = (
  (1 ∷ 304 ∷ 0 ∷ 1 ∷ [], press_encoded, omega arith),
  (([], ping_encoded, omega arith), ((1 ∷ 304 ∷ 0 ∷ 0 ∷ [], release_encoded, omega arith), tt)),
)

abbrev attached : Iroh
attached = record {
  server = record server { sessions = one };
  phase = streaming "c0ffee:pad1";
  sent = [];
}

abbrev minutes : ℕ → Moment × (Message → Result (Unit {0}))
minutes i = (now, λ m. ok tt)

steps-serve_example :
    ((ClientLoop.steps debug Sample.json codes none_lower config pressing
        (in_phase (forwarding lost true))).sent
      ≡ [] ++ spoken pressing)
    × (stream : List ℕ) × (write_frames wire (spoken pressing) ≡ ok stream)
    × (after : Iroh) × (s' : SessionEntry) × (serve wire Trusted.json debug minutes
          (3 + 5)
          0
          (stream ++ 7 ∷ [])
          attached
        ≡ serve wire Trusted.json debug minutes 5 (0 + 3) (7 ∷ []) after)
    × Serves "c0ffee:pad1" s' after
    × (emitted s' ≡ [] ++ (press_south ∷ []) ∷ (release_south ∷ []) ∷ [])
steps-serve_example =
    steps-serve debug Sample.json codes none_lower config wire Trusted.json minutes pressing lost
      (in_phase (forwarding lost true)) 5 0 (7 ∷ []) "c0ffee:pad1" entry attached refl
      pressing-AllCalm pressing-AllFit (λ n b. refl) (λ n m. refl) (refl, one_there)
