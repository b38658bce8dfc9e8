-- ===== src/Connection/Agreement.antt =====
-- What the two ends of an Iroh connection may find on the stream: the order of the messages of
-- `run_iroh_client` of src/client.rs and `handle_iroh_client` of src/server.rs, seen from both.
use joycast.Prelude.{String, ◌≡◌, sym, subst, List, [], ◌∷◌, ◌++◌, ◌⊎◌, inl, inr}
use joycast.Prelude.Outcome.{Result}
use joycast.Protocol.{
  Message, handshake, handshake_ack, events, ping, pong, AckStatus, HandshakePayload,
}
use joycast.Server.{session_key}
use joycast.Server.Reaction.{Point, done}
use joycast.Server.Iroh.Turns.{Task, reacting, waiting as waits}
use joycast.Server.Iroh.{Iroh, greeting, streaming, closed}
use joycast.Server.Iroh as Handler
use joycast.Client.Iroh.{Phase, waiting, ponging, acking, forwarding, ended}

-- messages that follow a handshake
abbrev pub IsPlain : Message → Type 0
IsPlain (events batch) = Unit
IsPlain ping = Unit
IsPlain _ = ⊥

abbrev pub AllPlain : List Message → Type 0
AllPlain [] = Unit
AllPlain (m ∷ l) = IsPlain m × AllPlain l

abbrev pub IsPong : Message → Type 0
IsPong pong = Unit
IsPong _ = ⊥

abbrev pub AllPong : List Message → Type 0
AllPong [] = Unit
AllPong (m ∷ l) = IsPong m × AllPong l

pub AllPlain-snoc :
    (l : List Message) (m : Message) → AllPlain l → IsPlain m → AllPlain (l ++ m ∷ [])
AllPlain-snoc [] m a p = (p, tt)
AllPlain-snoc (n ∷ l) m (q, a) p = (q, AllPlain-snoc l m a p)

pub AllPong-snoc : (l : List Message) → AllPong l → AllPong (l ++ pong ∷ [])
AllPong-snoc [] a = (tt, tt)
AllPong-snoc (n ∷ l) (q, a) = (q, AllPong-snoc l a)

abbrev pub Acks : List Message → Type 0
Acks l =
    (status : AckStatus) × (host : String) × (text : String) × (l
      ≡ handshake_ack status host text ∷ [])

module _ (id : String) where
  -- the handshake of the client of this id
  abbrev pub Greets : List Message → Type 0
  Greets l = (p : HandshakePayload) × (p.client_id ≡ id) × (l ≡ handshake p ∷ [])

  -- a session of the client of this id
  abbrev pub IsOwnKey : String → Type 0
  IsOwnKey key = (p : HandshakePayload) × (p.client_id ≡ id) × (key ≡ session_key p)

  -- what the handler may have to read of a client that has left
  abbrev pub Leaves : Handler.Phase → List Message → Type 0
  Leaves greeting l = (l ≡ []) ⊎ (l ≡ ping ∷ []) ⊎ Greets l
  Leaves (streaming key) l = AllPlain l
  Leaves (closed r) l = Unit

  -- The phases of the client and the handler, what the handler has not read yet, and what the client
  -- has not.
  abbrev pub Agrees : Phase → Handler.Phase → List Message → List Message → Type 0
  Agrees (ended r) ph asked told = Leaves ph asked
  Agrees waiting greeting asked told = (asked ≡ []) × (told ≡ [])
  Agrees waiting (streaming key) asked told = ⊥
  Agrees waiting (closed r) asked told = told ≡ []
  Agrees ponging greeting asked told =
      ((asked ≡ ping ∷ []) × (told ≡ [])) ⊎ ((asked ≡ []) × (told ≡ pong ∷ []))
  Agrees ponging (streaming key) asked told = ⊥
  Agrees ponging (closed r) asked told = (told ≡ []) ⊎ (told ≡ pong ∷ [])
  Agrees (acking metadata path) greeting asked told = Greets asked × (told ≡ [])
  Agrees (acking metadata path) (streaming key) asked told = (asked ≡ []) × Acks told × IsOwnKey key
  Agrees (acking metadata path) (closed r) asked told = (told ≡ []) ⊎ Acks told
  Agrees (forwarding r s) greeting asked told = ⊥
  Agrees (forwarding r s) (streaming key) asked told = AllPlain asked × AllPong told × IsOwnKey key
  Agrees (forwarding r s) (closed e) asked told = AllPong told

  -- a reaction that goes on
  abbrev pub IsOpen : Point → Type 0
  IsOpen done = ⊥
  IsOpen point = Unit

  -- A handshake that the handler reacts to counts as one that it has not read.
  abbrev pub Stands : Phase → Task → Iroh → List Message → Type 0
  Stands c waits h asked = Agrees c h.phase asked h.sent
  Stands c (reacting p point) h asked =
      IsOpen point × (h.phase ≡ greeting) × Agrees c greeting (handshake p ∷ asked) h.sent

  abbrev pub ahead : Task → List Message → List Message
  ahead waits asked = asked
  ahead (reacting p point) asked = handshake p ∷ asked

  pub Stands-Agrees :
      (c : Phase) (t : Task) (h : Iroh) (asked : List Message)
      → Stands c t h asked
      → Agrees c h.phase (ahead t asked) h.sent
  Stands-Agrees c waits h asked a = a
  Stands-Agrees c (reacting p point) h asked (o, g, a) =
      subst (λ (ph : Handler.Phase). Agrees c ph (handshake p ∷ asked) h.sent) (sym g) a

  -- The client may leave at any time.
  pub Agrees-Leaves :
      (c : Phase) (h : Handler.Phase) (asked told : List Message)
      → Agrees c h asked told
      → Leaves h asked
  Agrees-Leaves (ended r) h asked told a = a
  Agrees-Leaves waiting greeting asked told (a, b) = inl a
  Agrees-Leaves ponging greeting asked told (inl (a, b)) = inr (inl a)
  Agrees-Leaves ponging greeting asked told (inr (a, b)) = inl a
  Agrees-Leaves (acking metadata path) greeting asked told (a, b) = inr (inr a)
  Agrees-Leaves (acking metadata path) (streaming key) asked told (a, b, k) =
      subst AllPlain (sym a) tt
  Agrees-Leaves (forwarding r s) (streaming key) asked told (a, b, k) = a
  Agrees-Leaves waiting (streaming key) asked told a = absurd a
  Agrees-Leaves ponging (streaming key) asked told a = absurd a
  Agrees-Leaves (forwarding r s) greeting asked told a = absurd a
  Agrees-Leaves c (closed r) asked told a = tt

  -- So may the handler.
  pub Agrees-closed :
      (c : Phase) (h : Handler.Phase) (asked rest told : List Message) (r : Result (Unit {0}))
      → Agrees c h asked told
      → Agrees c (closed r) rest told
  Agrees-closed (ended e) h asked rest told r a = tt
  Agrees-closed waiting greeting asked rest told r (a, b) = b
  Agrees-closed waiting (closed e) asked rest told r a = a
  Agrees-closed ponging greeting asked rest told r (inl (a, b)) = inl b
  Agrees-closed ponging greeting asked rest told r (inr (a, b)) = inr b
  Agrees-closed ponging (closed e) asked rest told r a = a
  Agrees-closed (acking metadata path) greeting asked rest told r (a, b) = inl b
  Agrees-closed (acking metadata path) (streaming key) asked rest told r (a, b, k) = inr b
  Agrees-closed (acking metadata path) (closed e) asked rest told r a = a
  Agrees-closed (forwarding d s) (streaming key) asked rest told r (a, b, k) = b
  Agrees-closed (forwarding d s) (closed e) asked rest told r a = a
  Agrees-closed waiting (streaming key) asked rest told r a = absurd a
  Agrees-closed ponging (streaming key) asked rest told r a = absurd a
  Agrees-closed (forwarding d s) greeting asked rest told r a = absurd a
