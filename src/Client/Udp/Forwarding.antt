-- ===== src/Client/Udp/Forwarding.antt =====
-- The phases of the Direct UDP client: when input is forwarded, and what is sent of it.
use Prim.Native.Char.{Char}
use joycast.Prelude.{
  ℕ, String, ◌≡◌, refl, sym, subst, Bool, true, false, Option, none, some, List, [], ◌∷◌, ◌++◌,
  arith, inl, inr, Option-cases,
}
use joycast.Prelude.Outcome.{Result, ok, Codec, Result-cases}
use joycast.Protocol.{
  DeviceMetadata, Message, handshake_ack, ping, approved, pending_approval, rejected, Wire, encode,
  decode,
}
use joycast.History.{KnownServerInfo}
use joycast.Device.{KeyCodes, Device}
use joycast.Device.Output.{InputEvent}
use joycast.Client.{ReconnectingDevice, try_reopen, event_message}
use joycast.Client.Reopen.{try_reopen-identity}
use joycast.Client.Udp.{
  Phase, waiting, acking, forwarding, ended, Config, UdpClient, World, Arm, reconnect_tick,
  keepalive_tick, event, disconnected, received, timed_out, post, keepalive, greet, greet_found,
  on_waiting, on_ack, on_reply, on_acking, reopen, on_forwarding, on_phase, step,
}

module _ (wire : Wire) (json : Codec (List KnownServerInfo) String) (codes : KeyCodes)
    (unicode : Char → String) where
  -- An input event of the open device goes out as one datagram, the encoding of a message with this
  -- event alone, and the client goes on, if the message can be encoded and the socket takes it.
  pub step-event :
      (config : Config) (w : World) (e : InputEvent) (r : ReconnectingDevice) (bytes : List ℕ)
      (c : UdpClient)
      → c.phase ≡ forwarding r true
      → encode wire (event_message e) ≡ ok bytes
      → w.send bytes ≡ ok tt
      → step wire json codes unicode config w (event e) c ≡ record c { sent = c.sent ++ bytes ∷ [] }
  unfolding step on_phase on_forwarding post
  step-event config w e r bytes c p x s = ground arith

  -- how a client can come to the main loop
  abbrev pub MayForward : Phase → Arm → Type 0
  MayForward (forwarding r stream) arm = Unit
  MayForward (acking metadata path) timed_out = Unit
  MayForward (acking metadata path) (received (ok bytes)) =
      (host : String) × (message : String) × (decode wire bytes
        ≡ ok (handshake_ack approved host message))
  MayForward _ _ = ⊥

  post-forwarding :
      (w : World) (m : Message) (a b : String) (next : Phase) (c : UdpClient)
      (r : ReconnectingDevice) (s : Bool)
      → (post wire w m a b next c).phase ≡ forwarding r s
      → next ≡ forwarding r s
  unfolding post
  post-forwarding w m a b next c r s h = ground arith

  on_reply-MayForward :
      (config : Config) (w : World) (metadata : DeviceMetadata) (path : String) (bytes : List ℕ)
      (c : UdpClient) (r : ReconnectingDevice) (s : Bool) (m : Result Message)
      → c.phase ≡ acking metadata path
      → decode wire bytes ≡ m
      → (on_reply wire json config w metadata path m c).phase ≡ forwarding r s
      → (host : String) × (message : String) × (decode wire bytes
          ≡ ok (handshake_ack approved host message))
  unfolding on_reply on_ack
  on_reply-MayForward config w metadata path bytes c r s (ok (handshake_ack approved host message))
        p d h =
      (host, message, d)
  on_reply-MayForward config w metadata path bytes c r s
        (ok (handshake_ack pending_approval host message)) p d h =
      absurd (ground arith)
  on_reply-MayForward config w metadata path bytes c r s (ok (handshake_ack rejected host message))
        p d h =
      absurd (ground arith)
  on_reply-MayForward config w metadata path bytes c r s _ p d h = absurd (ground arith)

  greet-forwarding :
      (config : Config) (w : World) (found : Option (Device × String)) (c : UdpClient)
      (r : ReconnectingDevice) (s : Bool)
      → c.phase ≡ waiting
      → (greet_found wire config w found c).phase ≡ forwarding r s
      → ⊥
  unfolding greet_found greet post
  greet-forwarding config w none c r s p h = ground arith
  greet-forwarding config w (some (device, path)) c r s p h = ground arith

  on_waiting-forwarding :
      (config : Config) (w : World) (arm : Arm) (c : UdpClient) (r : ReconnectingDevice) (s : Bool)
      → c.phase ≡ waiting
      → (on_waiting wire codes unicode config w arm c).phase ≡ forwarding r s
      → ⊥
  unfolding on_waiting keepalive post
  on_waiting-forwarding config w reconnect_tick c r s p h = greet-forwarding config w _ _ r s p h
  on_waiting-forwarding config w keepalive_tick c r s p h = ground arith
  on_waiting-forwarding config w _ c r s p h = ground arith

  on_phase-MayForward :
      (config : Config) (w : World) (arm : Arm) (c : UdpClient) (ph : Phase)
      (r : ReconnectingDevice) (s : Bool)
      → c.phase ≡ ph
      → (on_phase wire json codes unicode config w ph arm c).phase ≡ forwarding r s
      → MayForward ph arm
  unfolding on_phase on_acking
  on_phase-MayForward config w arm c (forwarding _ _) r s p h = tt
  on_phase-MayForward config w timed_out c (acking metadata path) r s p h = tt
  on_phase-MayForward config w (received (ok bytes)) c (acking metadata path) r s p h =
      on_reply-MayForward config w metadata path bytes c r s _ p refl h
  on_phase-MayForward config w arm c (ended e) r s p h = ground arith
  on_phase-MayForward config w arm c waiting r s p h = on_waiting-forwarding config w arm c r s p h
  on_phase-MayForward config w arm c (acking metadata path) r s p h = ground arith

  -- After a step the client forwards input only if it did before, or it was waiting for the
  -- acknowledgment and one that approves it has come, or that wait is over.
  pub step-MayForward :
      (config : Config) (w : World) (arm : Arm) (c : UdpClient) (r : ReconnectingDevice) (s : Bool)
      → (step wire json codes unicode config w arm c).phase ≡ forwarding r s
      → MayForward c.phase arm
  unfolding step
  step-MayForward config w arm c r s h = on_phase-MayForward config w arm c c.phase r s refl h

  -- Everything that the client sends while it forwards can be encoded, and the socket takes it.
  pub record Sends (w : World) : Type 0 where
    pub takes : (bytes : List ℕ) → w.send bytes ≡ ok tt
    pub ping_encodes : (bytes : List ℕ) × (encode wire ping ≡ ok bytes)
    pub event_encodes :
        (e : InputEvent) → (bytes : List ℕ) × (encode wire (event_message e) ≡ ok bytes)

  -- it forwards for the same device
  abbrev pub Forwards : ReconnectingDevice → UdpClient → Type 0
  Forwards r c =
      (r' : ReconnectingDevice) × (s : Bool) × (c.phase ≡ forwarding r' s)
      × (r'.identity ≡ r.identity)

  reopen-Forwards :
      (w : World) (c : UdpClient) (r : ReconnectingDevice) → Forwards r (reopen wire json w r c)
  unfolding reopen
  reopen-Forwards w c r =
      let r' = (try_reopen w.devices r).1 in
      let same = try_reopen-identity w.devices r in
      elim (Option-cases (try_reopen w.devices r).0) [
        | inl e ↦ (r', false, ground arith, same)
        | inr (device, e) ↦ elim (Result-cases w.stream) [
          | inl (u, o) ↦ (r', true, ground arith, same)
          | inr (x, o) ↦ (r', false, ground arith, same)
        ]
      ]

  on_forwarding-Forwards :
      (w : World) (arm : Arm) (c : UdpClient) (r : ReconnectingDevice) (s : Bool)
      → Sends w
      → c.phase ≡ forwarding r s
      → Forwards r (on_forwarding wire json w r s arm c)
  unfolding on_forwarding keepalive post
  on_forwarding-Forwards w (event e) c r true ok_all p =
      let (bytes, x) = ok_all.event_encodes e in (r, true, ground (arith, ok_all.takes bytes), refl)
  on_forwarding-Forwards w disconnected c r true ok_all p = (r, false, refl, refl)
  on_forwarding-Forwards w reconnect_tick c r false ok_all p = reopen-Forwards w c r
  on_forwarding-Forwards w keepalive_tick c r s ok_all p =
      let (bytes, x) = ok_all.ping_encodes in (r, s, ground (arith, ok_all.takes bytes), refl)
  on_forwarding-Forwards w _ c r true ok_all p = (r, true, p, refl)
  on_forwarding-Forwards w _ c r false ok_all p = (r, false, p, refl)

  -- Once it forwards, the client goes on, for the same device: not the loss of the device, nor a
  -- device that cannot be opened, nor an error of receiving ends it, as long as what it sends can
  -- be encoded and the socket takes it.
  pub step-Forwards :
      (config : Config) (w : World) (arm : Arm) (c : UdpClient) (r : ReconnectingDevice) (s : Bool)
      → Sends w
      → c.phase ≡ forwarding r s
      → Forwards r (step wire json codes unicode config w arm c)
  unfolding step on_phase
  step-Forwards config w arm c r s ok_all p =
      subst (λ (ph : Phase). Forwards r (on_phase wire json codes unicode config w ph arm c))
        (sym p) (on_forwarding-Forwards w arm c r s ok_all p)
