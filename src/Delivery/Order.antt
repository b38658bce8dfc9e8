-- ===== src/Delivery/Order.antt =====
-- All that is played: the main loop of `run_iroh_client` of src/client.rs over any number of its arms, and
-- the main loop of `handle_iroh_client` of src/server.rs on the bytes that it writes.
use Prim.Native.Char.{Char}
use mathlib.Core.List.{append_assoc, append-nil}
use joycast.Prelude.{
  ℕ, ◌+◌, String, ◌≡◌, refl, sym, ap, ◌∙◌, true, List, [], ◌∷◌, ◌++◌, map, length, arith,
}
use joycast.Prelude.Outcome.{Result, ok, err, Codec}
use joycast.Trust.{TrustData}
use joycast.Protocol.{Message, ping, Wire}
use joycast.Protocol.Frame.Stream.{AllFit, write_frames}
use joycast.History.{KnownServerInfo}
use joycast.Device.{KeyCodes}
use joycast.Device.Output.{InputEvent}
use joycast.Server.{Moment, SessionEntry}
use joycast.Server.Udp.Events.{Takes}
use joycast.Server.Iroh.{Iroh}
use joycast.Server.Iroh.Serve.{serve}
use joycast.Server.Iroh.Replay.{batches, Serves, emitted, serve-write_frames}
use joycast.Client.{ReconnectingDevice, event_message}
use joycast.Client.Udp.{Config}
use joycast.Client.Iroh.{
  IrohClient, World, Arm, reconnect_tick, keepalive_tick, event, disconnected, received, timed_out,
  forwarding, on_forwarding, on_phase, write, step, steps,
}
use joycast.Client.Iroh.Forwarding.{step-event}

-- Neither the device nor the connection is lost, and the stream takes what is written.
abbrev pub AllCalm : List (World × Arm) → Type 0
AllCalm [] = Unit {0}
AllCalm ((w, disconnected) ∷ arms) = ⊥
AllCalm ((w, received (err e)) ∷ arms) = ⊥
AllCalm ((w, arm) ∷ arms) = ((m : Message) → w.write m ≡ ok tt) × AllCalm arms

-- what the controller does
abbrev pub inputs : List (World × Arm) → List InputEvent
inputs [] = []
inputs ((w, event e) ∷ arms) = e ∷ inputs arms
inputs ((w, _) ∷ arms) = inputs arms

-- what the client writes
abbrev pub spoken : List (World × Arm) → List Message
spoken [] = []
spoken ((w, event e) ∷ arms) = event_message e ∷ spoken arms
spoken ((w, keepalive_tick) ∷ arms) = ping ∷ spoken arms
spoken ((w, _) ∷ arms) = spoken arms

batches-spoken :
    (arms : List (World × Arm)) → batches (spoken arms) ≡ map (λ e. e ∷ []) (inputs arms)
unfolding event_message
batches-spoken [] = refl
batches-spoken ((w, event e) ∷ arms) =
    ap (λ (b : List (List InputEvent)). (e ∷ []) ∷ b) (batches-spoken arms)
batches-spoken ((w, keepalive_tick) ∷ arms) = batches-spoken arms
batches-spoken ((w, reconnect_tick) ∷ arms) = batches-spoken arms
batches-spoken ((w, disconnected) ∷ arms) = batches-spoken arms
batches-spoken ((w, received r) ∷ arms) = batches-spoken arms
batches-spoken ((w, timed_out) ∷ arms) = batches-spoken arms

module _ (debug : Message → String) (history : Codec (List KnownServerInfo) String)
    (codes : KeyCodes) (unicode : Char → String) (config : Config) where
  abbrev run : List (World × Arm) → IrohClient → IrohClient
  run arms c = steps debug history codes unicode config arms c

  keeps :
      (w : World) (arm : Arm) (msg : Message) (arms : List (World × Arm)) (c : IrohClient)
      → step debug history codes unicode config w arm c ≡ record c { sent = c.sent ++ msg ∷ [] }
      → (run arms (record c { sent = c.sent ++ msg ∷ [] })).sent
        ≡ (c.sent ++ msg ∷ []) ++ spoken arms
      → (run ((w, arm) ∷ arms) c).sent ≡ c.sent ++ (msg ∷ spoken arms)
  unfolding steps
  keeps w arm msg arms c e ih =
      ap (λ (x : IrohClient). (run arms x).sent) e
      ∙ (ih ∙ append_assoc c.sent (msg ∷ []) (spoken arms))

  steps-spoken :
      (arms : List (World × Arm)) (r : ReconnectingDevice) (c : IrohClient)
      → c.phase ≡ forwarding r true
      → AllCalm arms
      → (run arms c).sent ≡ c.sent ++ spoken arms
  unfolding steps step on_phase on_forwarding write
  steps-spoken [] r c p calm = sym (append-nil c.sent)
  steps-spoken ((w, event e) ∷ arms) r c p calm =
      keeps w (event e) (event_message e) arms c
        (step-event debug history codes unicode config w e r c p (calm.0 (event_message e)))
        (steps-spoken arms r (record c { sent = c.sent ++ event_message e ∷ [] }) p calm.1)
  steps-spoken ((w, keepalive_tick) ∷ arms) r c p calm =
      keeps w keepalive_tick ping arms c (let t = calm.0 ping in ground arith)
        (steps-spoken arms r (record c { sent = c.sent ++ ping ∷ [] }) p calm.1)
  steps-spoken ((w, reconnect_tick) ∷ arms) r c p calm =
      let same : step debug history codes unicode config w reconnect_tick c ≡ c = ground arith in
      ap (λ (x : IrohClient). (run arms x).sent) same ∙ steps-spoken arms r c p calm.1
  steps-spoken ((w, disconnected) ∷ arms) r c p calm = absurd calm
  steps-spoken ((w, received (ok m)) ∷ arms) r c p calm =
      let same : step debug history codes unicode config w (received (ok m)) c ≡ c = ground arith in
      ap (λ (x : IrohClient). (run arms x).sent) same ∙ steps-spoken arms r c p calm.1
  steps-spoken ((w, received (err e)) ∷ arms) r c p calm = absurd calm
  steps-spoken ((w, timed_out) ∷ arms) r c p calm =
      let same : step debug history codes unicode config w timed_out c ≡ c = ground arith in
      ap (λ (x : IrohClient). (run arms x).sent) same ∙ steps-spoken arms r c p calm.1

  module _ (wire : Wire) (trust : Codec TrustData String)
      (world : ℕ → Moment × (Message → Result (Unit {0}))) where
    -- While neither the device nor the connection is lost, and each side can write, what the
    -- controller does is what the virtual device does. The Iroh client writes its messages on the
    -- stream, of which each takes at most 10 MiB; the handler, in its main loop on a session, takes
    -- the bytes of their frames off the stream in as many rounds, whatever follows them there;
    -- after these it is in its main loop still, and the session's virtual device has emitted, after
    -- all that it emitted before, every event of the controller, in their order, each in a batch of
    -- its own, and nothing else. The kernel takes each batch.
    pub steps-serve :
        (arms : List (World × Arm)) (r : ReconnectingDevice) (client : IrohClient) (fuel i : ℕ)
        (rest : List ℕ) (key : String) (s : SessionEntry) (c : Iroh)
        → client.phase ≡ forwarding r true
        → AllCalm arms
        → AllFit wire (spoken arms)
        → ((n : ℕ) → Takes (world n).0.uinput)
        → ((n : ℕ) (answer : Message) → (world n).1 answer ≡ ok tt)
        → Serves key s c
        → ((steps debug history codes unicode config arms client).sent ≡ client.sent ++ spoken arms)
          × (stream : List ℕ) × (write_frames wire (spoken arms) ≡ ok stream)
          × (after : Iroh) × (s' : SessionEntry) × (serve wire trust debug world
                (length (spoken arms) + fuel)
                i
                (stream ++ rest)
                c
              ≡ serve wire trust debug world fuel (i + length (spoken arms)) rest after)
          × Serves key s' after
          × (emitted s' ≡ emitted s ++ map (λ e. e ∷ []) (inputs arms))
    steps-serve arms r client fuel i rest key s c p calm fits takes answers v =
        let (stream, w, after, s', same, v', e) =
          serve-write_frames wire trust debug world (spoken arms) fuel i rest key s c fits takes
            answers v in
        (
          steps-spoken arms r client p calm,
          stream,
          w,
          after,
          s',
          same,
          v',
          e ∙ ap (λ (b : List (List InputEvent)). emitted s ++ b) (batches-spoken arms),
        )
