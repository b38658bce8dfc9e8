-- ===== src/Connection/Asking.antt =====
-- The end of an Iroh connection that `run_iroh_client` of src/client.rs holds.
use Prim.Native.Char.{Char}
use joycast.Prelude.{
  String, ◌≡◌, refl, sym, subst, Bool, true, false, Option, none, some, List, [], ◌∷◌, ◌++◌, inl,
  inr, Option-cases,
}
use joycast.Prelude.Outcome.{ok, err, Codec, Result-cases}
use joycast.Protocol.{DeviceMetadata, Message, handshake, ping, HandshakePayload}
use joycast.History.{KnownServerInfo}
use joycast.Device.{KeyCodes, Device, extract_metadata}
use joycast.Server.Iroh.{greeting, streaming, closed}
use joycast.Server.Iroh as Handler
use joycast.Client.{ReconnectingDevice, event_message, reconnecting, try_reopen}
use joycast.Client.Udp.{Config}
use joycast.Client.Iroh.{
  Phase, waiting, ponging, acking, forwarding, ended, IrohClient, World, Arm, reconnect_tick,
  keepalive_tick, event, disconnected, received, timed_out, write, greet_found, on_waiting,
  on_ponging, on_acking, start, reopen, on_forwarding, on_phase,
}
use joycast.Connection.Agreement.{IsPlain, AllPlain-snoc, Agrees, Agrees-Leaves}

-- an arm that takes no message off the stream
abbrev pub IsAct : Arm → Type 0
IsAct (received (ok m)) = ⊥
IsAct _ = Unit

module _ (config : Config) (h : Handler.Phase) where
  abbrev pub AgreesAt : IrohClient → List Message → Type 0
  AgreesAt c told = Agrees config.client_id c.phase h c.sent told

  waiting-acking :
      (ph : Handler.Phase) (metadata : DeviceMetadata) (path : String) (p : HandshakePayload)
      (asked told : List Message)
      → p.client_id ≡ config.client_id
      → Agrees config.client_id waiting ph asked told
      → Agrees config.client_id (acking metadata path) ph (asked ++ handshake p ∷ []) told
  waiting-acking greeting metadata path p asked told o (a, b) = ((p, o, rw a refl), b)
  waiting-acking (closed r) metadata path p asked told o a = inl a
  waiting-acking (streaming key) metadata path p asked told o a = absurd a

  waiting-ponging :
      (ph : Handler.Phase) (asked told : List Message)
      → Agrees config.client_id waiting ph asked told
      → Agrees config.client_id ponging ph (asked ++ ping ∷ []) told
  waiting-ponging greeting asked told (a, b) = inl (rw a refl, b)
  waiting-ponging (closed r) asked told a = inl a
  waiting-ponging (streaming key) asked told a = absurd a

  forwards :
      (ph : Handler.Phase) (r r' : ReconnectingDevice) (s s' : Bool) (m : Message)
      (asked told : List Message)
      → IsPlain m
      → Agrees config.client_id (forwarding r s) ph asked told
      → Agrees config.client_id (forwarding r' s') ph (asked ++ m ∷ []) told
  forwards (streaming key) r r' s s' m asked told p (a, b, k) = (AllPlain-snoc asked m a p, b, k)
  forwards (closed e) r r' s s' m asked told p a = a
  forwards greeting r r' s s' m asked told p a = absurd a

  forwards_on :
      (ph : Handler.Phase) (r r' : ReconnectingDevice) (s s' : Bool) (asked told : List Message)
      → Agrees config.client_id (forwarding r s) ph asked told
      → Agrees config.client_id (forwarding r' s') ph asked told
  forwards_on (streaming key) r r' s s' asked told a = a
  forwards_on (closed e) r r' s s' asked told a = a
  forwards_on greeting r r' s s' asked told a = absurd a

  write-Agrees :
      (w : World) (m : Message) (next : Phase) (c : IrohClient) (told : List Message)
      → AgreesAt c told
      → Agrees config.client_id next h (c.sent ++ m ∷ []) told
      → AgreesAt (write w m next c) told
  unfolding write
  write-Agrees w m next c told a n = elim (Result-cases (w.write m)) [
    | inl (o, k) ↦ rw (k, write) n
    | inr (x, k) ↦ rw (k, write) (Agrees-Leaves config.client_id c.phase h c.sent told a)
  ]

  module _ (told : List Message) where
    greet_found-Agrees :
        (w : World) (found : Option (Device × String)) (c : IrohClient)
        → c.phase ≡ waiting
        → AgreesAt c told
        → AgreesAt (greet_found config w found c) told
    unfolding greet_found
    greet_found-Agrees w none c p a = a
    greet_found-Agrees w (some (device, path)) c p a =
        write-Agrees w _ _ c told a
          (waiting-acking h (extract_metadata device) path _ c.sent told refl (rw p at a))

    on_waiting-Agrees :
        (codes : KeyCodes) (unicode : Char → String) (w : World) (arm : Arm) (c : IrohClient)
        → c.phase ≡ waiting
        → AgreesAt c told
        → AgreesAt (on_waiting codes unicode config w arm c) told
    unfolding on_waiting
    on_waiting-Agrees codes unicode w reconnect_tick c p a = greet_found-Agrees w _ _ p a
    on_waiting-Agrees codes unicode w keepalive_tick c p a =
        write-Agrees w ping ponging c told a (waiting-ponging h c.sent told (rw p at a))
    on_waiting-Agrees codes unicode w _ c p a = a

    pub start-Agrees :
        (w : World) (metadata : DeviceMetadata) (path : String) (c : IrohClient)
        → ((r : ReconnectingDevice) (s : Bool)
            → Agrees config.client_id (forwarding r s) h c.sent told)
        → AgreesAt (start w metadata path c) told
    unfolding start
    start-Agrees w metadata path c n = elim (Result-cases w.stream) [
      | inl (u, k) ↦ rw (k, start) (n (reconnecting path metadata) true)
      | inr (x, k) ↦
          rw (k, start)
            (Agrees-Leaves config.client_id (forwarding (reconnecting path metadata) true) h c.sent
              told (n (reconnecting path metadata) true))
    ]

    reopen-Agrees :
        (w : World) (r : ReconnectingDevice) (s : Bool) (c : IrohClient)
        → Agrees config.client_id (forwarding r s) h c.sent told
        → AgreesAt (reopen w r c) told
    unfolding reopen
    reopen-Agrees w r s c a =
        let on : (s' : Bool)
            → Agrees config.client_id (forwarding (try_reopen w.devices r).1 s') h c.sent told =
          λ s'. forwards_on h r (try_reopen w.devices r).1 s s' c.sent told a in
        elim (Option-cases (try_reopen w.devices r).0) [
          | inl e ↦ rw (e, reopen) (on false)
          | inr (device, e) ↦ elim (Result-cases w.stream) [
            | inl (u, o) ↦ rw (e, o, reopen) (on true)
            | inr (x, o) ↦ rw (e, o, reopen) (on false)
          ]
        ]

    says :
        (w : World) (r : ReconnectingDevice) (s : Bool) (m : Message) (c : IrohClient)
        → IsPlain m
        → c.phase ≡ forwarding r s
        → AgreesAt c told
        → AgreesAt (write w m c.phase c) told
    says w r s m c i p a = write-Agrees w m c.phase c told a (
        subst (λ (ph : Phase). Agrees config.client_id ph h (c.sent ++ m ∷ []) told) (sym p)
          (forwards h r r s s m c.sent told i (rw p at a)))

    on_forwarding-Agrees :
        (w : World) (r : ReconnectingDevice) (s : Bool) (arm : Arm) (c : IrohClient)
        → IsAct arm
        → c.phase ≡ forwarding r s
        → AgreesAt c told
        → AgreesAt (on_forwarding w r s arm c) told
    unfolding on_forwarding event_message
    on_forwarding-Agrees w r true (event e) c i p a = says w r true (event_message e) c tt p a
    on_forwarding-Agrees w r true disconnected c i p a =
        forwards_on h r r true false c.sent told (rw p at a)
    on_forwarding-Agrees w r false reconnect_tick c i p a = reopen-Agrees w r false c (rw p at a)
    on_forwarding-Agrees w r true keepalive_tick c i p a = says w r true ping c tt p a
    on_forwarding-Agrees w r false keepalive_tick c i p a = says w r false ping c tt p a
    on_forwarding-Agrees w r true (received (err e)) c i p a =
        Agrees-Leaves config.client_id c.phase h c.sent told a
    on_forwarding-Agrees w r false (received (err e)) c i p a =
        Agrees-Leaves config.client_id c.phase h c.sent told a
    on_forwarding-Agrees w r true _ c i p a = a
    on_forwarding-Agrees w r false _ c i p a = a

    pub on_phase-Agrees :
        (debug : Message → String) (history : Codec (List KnownServerInfo) String)
        (codes : KeyCodes) (unicode : Char → String) (w : World) (arm : Arm) (ph : Phase)
        (c : IrohClient)
        → IsAct arm
        → c.phase ≡ ph
        → AgreesAt c told
        → AgreesAt (on_phase debug history codes unicode config w ph arm c) told
    unfolding on_phase on_ponging on_acking
    on_phase-Agrees debug history codes unicode w arm waiting c i p a =
        on_waiting-Agrees codes unicode w arm c p a
    on_phase-Agrees debug history codes unicode w (received (err e)) ponging c i p a =
        Agrees-Leaves config.client_id c.phase h c.sent told a
    on_phase-Agrees debug history codes unicode w timed_out ponging c i p a =
        Agrees-Leaves config.client_id c.phase h c.sent told a
    on_phase-Agrees debug history codes unicode w (received (err e)) (acking _ _) c i p a =
        Agrees-Leaves config.client_id c.phase h c.sent told a
    on_phase-Agrees debug history codes unicode w arm (forwarding r s) c i p a =
        on_forwarding-Agrees w r s arm c i p a
    on_phase-Agrees debug history codes unicode w (received (ok m)) ponging c i p a = absurd i
    on_phase-Agrees debug history codes unicode w (received (ok m)) (acking _ _) c i p a = absurd i
    on_phase-Agrees debug history codes unicode w _ ponging c i p a = a
    on_phase-Agrees debug history codes unicode w _ (acking _ _) c i p a = a
    on_phase-Agrees debug history codes unicode w arm (ended r) c i p a = a
