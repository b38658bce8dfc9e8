-- ===== src/Connection/Answering.antt =====
-- The end of an Iroh connection that `handle_iroh_client` of src/server.rs holds.
use mathlib.Core.List.{◌++◌ as append}
use joycast.Prelude.{String, ◌≡◌, refl, sym, subst, List, [], ◌∷◌, arith, ◌⊎◌, inl, inr}
use joycast.Prelude.Outcome.{Result}
use joycast.Prelude.Map.{string_eq}
use joycast.Protocol.{Message, handshake, handshake_ack, ping, pong, AckStatus, HandshakePayload}
use joycast.Server.{session_key}
use joycast.Server.Iroh.{Phase, greeting, streaming, closed}
use joycast.Client.Iroh.{waiting, ponging, acking, forwarding, ended}
use joycast.Client.Iroh as Client
use joycast.Connection.Agreement.{IsPlain, AllPlain, AllPong-snoc, Greets, Leaves, Agrees}

-- the messages that the handler takes
abbrev pub IsTaken : String → Phase → Message → Type 0
IsTaken id greeting m =
    (m ≡ ping) ⊎ ((p : HandshakePayload) × (p.client_id ≡ id) × (m ≡ handshake p))
IsTaken id (streaming key) m = IsPlain m
IsTaken id (closed r) m = Unit

module _ (id : String) where
  pub Leaves-IsTaken :
      (h : Phase) (m : Message) (rest : List Message) → Leaves id h (m ∷ rest) → IsTaken id h m
  Leaves-IsTaken greeting m rest (inl e) = absurd (ground arith)
  Leaves-IsTaken greeting m rest (inr (inl e)) = inl (ground arith)
  Leaves-IsTaken greeting m rest (inr (inr (p, o, e))) = inr (p, o, ground arith)
  Leaves-IsTaken (streaming key) m rest a = a.0
  Leaves-IsTaken (closed r) m rest a = tt

  pub pinged :
      (c : Client.Phase) (rest told : List Message)
      → Agrees id c greeting (ping ∷ rest) told
      → Agrees id c greeting rest (append told (pong ∷ []))
  pinged waiting rest told (a, b) = absurd (ground arith)
  pinged ponging rest told (inl (a, b)) = inr (ground arith, rw b refl)
  pinged ponging rest told (inr (a, b)) = absurd (ground arith)
  pinged (acking metadata path) rest told ((p, o, e), b) = absurd (ground arith)
  pinged (forwarding r s) rest told a = absurd a
  pinged (ended r) rest told (inl e) = absurd (ground arith)
  pinged (ended r) rest told (inr (inl e)) = inl (ground arith)
  pinged (ended r) rest told (inr (inr (p, o, e))) = absurd (ground arith)

  Greets-own :
      (p : HandshakePayload) (rest : List Message)
      → Greets id (handshake p ∷ rest)
      → (p.client_id ≡ id) × (rest ≡ [])
  Greets-own p rest (q, o, e) = let same : p ≡ q = ground arith in (ground arith, ground arith)

  -- a handshake that is on the stream is the only message there, and its client waits for the answer
  module _ (p : HandshakePayload) (rest told : List Message) (status : AckStatus)
      (host text : String) where
    pub admitted :
        (c : Client.Phase)
        → Agrees id c greeting (handshake p ∷ rest) told
        → Agrees id c
            (streaming (session_key p))
            rest
            (append told (handshake_ack status host text ∷ []))
    admitted (acking metadata path) (g, b) =
        let (o, e) = Greets-own p rest g in (e, (status, host, text, rw b refl), (p, o, refl))
    admitted (ended r) (inr (inr g)) = subst AllPlain (sym (Greets-own p rest g).1) tt
    admitted (ended r) (inl e) = absurd (ground arith)
    admitted (ended r) (inr (inl e)) = absurd (ground arith)
    admitted waiting (a, b) = absurd (ground arith)
    admitted ponging (inl (a, b)) = absurd (ground arith)
    admitted ponging (inr (a, b)) = absurd (ground arith)
    admitted (forwarding r s) a = absurd a

    pub dismissed :
        (c : Client.Phase) (r : Result (Unit {0}))
        → Agrees id c greeting (handshake p ∷ rest) told
        → Agrees id c (closed r) rest (append told (handshake_ack status host text ∷ []))
    dismissed (acking metadata path) r (g, b) = inr (status, host, text, rw b refl)
    dismissed (ended e) r a = tt
    dismissed waiting r (a, b) = absurd (ground arith)
    dismissed ponging r (inl (a, b)) = absurd (ground arith)
    dismissed ponging r (inr (a, b)) = absurd (ground arith)
    dismissed (forwarding d s) r a = absurd a

  pub played :
      (c : Client.Phase) (key : String) (m : Message) (rest told : List Message)
      → Agrees id c (streaming key) (m ∷ rest) told
      → Agrees id c (streaming key) rest told
  played (acking metadata path) key m rest told (a, b, k) = absurd (ground arith)
  played (forwarding r s) key m rest told (a, b, k) = (a.1, b, k)
  played (ended r) key m rest told a = a.1
  played waiting key m rest told a = absurd a
  played ponging key m rest told a = absurd a

  pub ponged :
      (c : Client.Phase) (key : String) (m : Message) (rest told : List Message)
      → Agrees id c (streaming key) (m ∷ rest) told
      → Agrees id c (streaming key) rest (append told (pong ∷ []))
  ponged (acking metadata path) key m rest told (a, b, k) = absurd (ground arith)
  ponged (forwarding r s) key m rest told (a, b, k) = (a.1, AllPong-snoc told b, k)
  ponged (ended r) key m rest told a = a.1
  ponged waiting key m rest told a = absurd a
  ponged ponging key m rest told a = absurd a
