-- ===== src/Client/Iroh/Forwarding.antt =====
-- The phases of the Iroh client: when input is forwarded, and what ends it.
use Prim.Native.Char.{Char}
use joycast.Prelude.{
  String, ◌≡◌, refl, sym, subst, Bool, true, false, List, [], ◌∷◌, ◌++◌, arith, ◌⊎◌, inl, inr,
  Option-cases,
}
use joycast.Prelude.Outcome.{ok, err, Codec, Result-cases}
use joycast.Protocol.{
  DeviceMetadata, Message, handshake_ack, ping, approved, pending_approval, rejected,
}
use joycast.History.{KnownServerInfo}
use joycast.Device.{KeyCodes}
use joycast.Device.Output.{InputEvent}
use joycast.Client.{ReconnectingDevice, try_reopen, event_message}
use joycast.Client.Reopen.{try_reopen-identity}
use joycast.Client.Udp.{Config}
use joycast.Client.Iroh.{
  Phase, waiting, ponging, acking, forwarding, ended, IrohClient, World, Arm, reconnect_tick,
  keepalive_tick, event, disconnected, received, write, greet_found, on_waiting, on_ponging, on_ack,
  on_reply, on_acking, reopen, on_forwarding, on_phase, step,
}

module _ (debug : Message → String) (json : Codec (List KnownServerInfo) String) (codes : KeyCodes)
    (unicode : Char → String) where
  -- An input event of the open device is written as one message, with this event alone, and the
  -- client goes on, if the stream takes it.
  pub step-event :
      (config : Config) (w : World) (e : InputEvent) (r : ReconnectingDevice) (c : IrohClient)
      → c.phase ≡ forwarding r true
      → w.write (event_message e) ≡ ok tt
      → step debug json codes unicode config w (event e) c
        ≡ record c { sent = c.sent ++ event_message e ∷ [] }
  unfolding step on_phase on_forwarding write
  step-event config w e r c p s = ground arith

  -- how a client can come to the main loop
  abbrev pub IsAdmitted : Phase → Arm → Type 0
  IsAdmitted (forwarding r stream) arm = Unit
  IsAdmitted (acking metadata path) (received (ok message)) =
      (host : String) × (text : String) × (message ≡ handshake_ack approved host text)
  IsAdmitted _ _ = ⊥

  on_reply-IsAdmitted :
      (config : Config) (w : World) (metadata : DeviceMetadata) (path : String) (m : Message)
      (c : IrohClient) (r : ReconnectingDevice) (s : Bool)
      → c.phase ≡ acking metadata path
      → (on_reply debug json config w metadata path m c).phase ≡ forwarding r s
      → (host : String) × (text : String) × (m ≡ handshake_ack approved host text)
  unfolding on_reply on_ack
  on_reply-IsAdmitted config w metadata path (handshake_ack approved host text) c r s p h =
      (host, text, refl)
  on_reply-IsAdmitted config w metadata path (handshake_ack pending_approval host text) c r s p h =
      absurd (ground arith)
  on_reply-IsAdmitted config w metadata path (handshake_ack rejected host text) c r s p h =
      absurd (ground arith)
  on_reply-IsAdmitted config w metadata path _ c r s p h = absurd (ground arith)

  on_waiting-forwarding :
      (config : Config) (w : World) (arm : Arm) (c : IrohClient) (r : ReconnectingDevice) (s : Bool)
      → c.phase ≡ waiting
      → (on_waiting codes unicode config w arm c).phase ≡ forwarding r s
      → ⊥
  unfolding on_waiting greet_found write
  on_waiting-forwarding config w arm c r s p h = ground arith

  on_ponging-forwarding :
      (arm : Arm) (c : IrohClient) (r : ReconnectingDevice) (s : Bool)
      → c.phase ≡ ponging
      → (on_ponging debug arm c).phase ≡ forwarding r s
      → ⊥
  unfolding on_ponging
  on_ponging-forwarding arm c r s p h = ground arith

  on_phase-IsAdmitted :
      (config : Config) (w : World) (arm : Arm) (c : IrohClient) (ph : Phase)
      (r : ReconnectingDevice) (s : Bool)
      → c.phase ≡ ph
      → (on_phase debug json codes unicode config w ph arm c).phase ≡ forwarding r s
      → IsAdmitted ph arm
  unfolding on_phase on_acking
  on_phase-IsAdmitted config w arm c (forwarding _ _) r s p h = tt
  on_phase-IsAdmitted config w (received (ok m)) c (acking metadata path) r s p h =
      on_reply-IsAdmitted config w metadata path m c r s p h
  on_phase-IsAdmitted config w arm c (ended e) r s p h = ground arith
  on_phase-IsAdmitted config w arm c waiting r s p h = on_waiting-forwarding config w arm c r s p h
  on_phase-IsAdmitted config w arm c ponging r s p h = on_ponging-forwarding arm c r s p h
  on_phase-IsAdmitted config w arm c (acking metadata path) r s p h = ground arith

  -- After a step the Iroh client forwards input only if it did before, or it was waiting for the
  -- acknowledgment and the frame that has come is one that approves it.
  pub step-IsAdmitted :
      (config : Config) (w : World) (arm : Arm) (c : IrohClient) (r : ReconnectingDevice) (s : Bool)
      → (step debug json codes unicode config w arm c).phase ≡ forwarding r s
      → IsAdmitted c.phase arm
  unfolding step
  step-IsAdmitted config w arm c r s h = on_phase-IsAdmitted config w arm c c.phase r s refl h

  -- it forwards for the same device
  abbrev pub GoesOn : ReconnectingDevice → IrohClient → Type 0
  GoesOn r c =
      (r' : ReconnectingDevice) × (s : Bool) × (c.phase ≡ forwarding r' s)
      × (r'.identity ≡ r.identity)

  -- the stream cannot be read or written, and the client says so
  abbrev pub Breaks : World → Arm → IrohClient → Type 0
  Breaks w arm c =
      ((e : String) × (arm ≡ received (err e)) × (c.phase ≡ ended (err "Server connection closed")))
      ⊎ ((m : Message) × (e : String) × (w.write m ≡ err e) × (c.phase ≡ ended (err e)))

  reopen-GoesOn : (w : World) (c : IrohClient) (r : ReconnectingDevice) → GoesOn r (reopen w r c)
  unfolding reopen
  reopen-GoesOn w c r =
      let r' = (try_reopen w.devices r).1 in
      let same = try_reopen-identity w.devices r in
      elim (Option-cases (try_reopen w.devices r).0) [
        | inl e ↦ (r', false, ground arith, same)
        | inr (device, e) ↦ elim (Result-cases w.stream) [
          | inl (u, o) ↦ (r', true, ground arith, same)
          | inr (x, o) ↦ (r', false, ground arith, same)
        ]
      ]

  write-GoesOn :
      (w : World) (arm : Arm) (m : Message) (c : IrohClient) (r : ReconnectingDevice) (s : Bool)
      → c.phase ≡ forwarding r s
      → GoesOn r (write w m c.phase c) ⊎ Breaks w arm (write w m c.phase c)
  unfolding write
  write-GoesOn w arm m c r s p = elim (Result-cases (w.write m)) [
    | inl (u, o) ↦ inl (r, s, ground arith, refl)
    | inr (e, o) ↦ inr (inr (m, e, o, ground arith))
  ]

  on_forwarding-GoesOn :
      (w : World) (arm : Arm) (c : IrohClient) (r : ReconnectingDevice) (s : Bool)
      → c.phase ≡ forwarding r s
      → GoesOn r (on_forwarding w r s arm c) ⊎ Breaks w arm (on_forwarding w r s arm c)
  unfolding on_forwarding
  on_forwarding-GoesOn w (event e) c r true p =
      write-GoesOn w (event e) (event_message e) c r true p
  on_forwarding-GoesOn w disconnected c r true p = inl (r, false, refl, refl)
  on_forwarding-GoesOn w reconnect_tick c r false p = inl (reopen-GoesOn w c r)
  on_forwarding-GoesOn w keepalive_tick c r true p = write-GoesOn w keepalive_tick ping c r true p
  on_forwarding-GoesOn w (received (err e)) c r true p = inr (inl (e, refl, refl))
  on_forwarding-GoesOn w keepalive_tick c r false p = write-GoesOn w keepalive_tick ping c r false p
  on_forwarding-GoesOn w (received (err e)) c r false p = inr (inl (e, refl, refl))
  on_forwarding-GoesOn w _ c r true p = inl (r, true, p, refl)
  on_forwarding-GoesOn w _ c r false p = inl (r, false, p, refl)

  -- Once it forwards, the Iroh client goes on, for the same device, or it ends: because a frame
  -- could not be read, with the error `Server connection closed`, or because a message could not be
  -- written, with that error. The loss of the device does not end it.
  pub step-GoesOn :
      (config : Config) (w : World) (arm : Arm) (c : IrohClient) (r : ReconnectingDevice) (s : Bool)
      → c.phase ≡ forwarding r s
      → GoesOn r (step debug json codes unicode config w arm c)
        ⊎ Breaks w arm (step debug json codes unicode config w arm c)
  unfolding step on_phase
  step-GoesOn config w arm c r s p =
      subst
        (λ (ph : Phase).
          GoesOn r (on_phase debug json codes unicode config w ph arm c)
          ⊎ Breaks w arm (on_phase debug json codes unicode config w ph arm c))
        (sym p) (on_forwarding-GoesOn w arm c r s p)
