-- ===== src/Connection/Reacting.antt =====
-- `run_iroh_client` of src/client.rs while `handle_iroh_client` of src/server.rs reacts to its
-- handshake.
use Prim.Native.Char.{Char}
use joycast.Prelude.{String, ◌≡◌, sym, subst, List, ◌∷◌, arith, inl, inr}
use joycast.Prelude.Outcome.{ok, err, Codec}
use joycast.Protocol.{Message, handshake, HandshakePayload}
use joycast.History.{KnownServerInfo}
use joycast.Device.{KeyCodes}
use joycast.Server.Iroh.{greeting}
use joycast.Client.Udp.{Config}
use joycast.Client.Iroh.{
  Phase, waiting, ponging, acking, forwarding, ended, IrohClient, World, Arm, received, on_acking,
  on_phase,
}
use joycast.Connection.Agreement.{Agrees}
use joycast.Connection.Asking.{IsAct}

module _ (p : HandshakePayload) (debug : Message → String)
    (history : Codec (List KnownServerInfo) String) (codes : KeyCodes) (unicode : Char → String)
    (config : Config) (w : World) where
  -- the handler has read the handshake
  abbrev pub AgreesAhead : IrohClient → List Message → Type 0
  AgreesAhead c told = Agrees config.client_id c.phase greeting (handshake p ∷ c.sent) told

  stays :
      (ph : Phase) (c : IrohClient) (told : List Message)
      → c.phase ≡ ph
      → Agrees config.client_id ph greeting (handshake p ∷ c.sent) told
      → AgreesAhead c told
  stays ph c told e a =
      subst (λ (x : Phase). Agrees config.client_id x greeting (handshake p ∷ c.sent) told) (sym e)
        a

  pub on_phase-ahead :
      (arm : Arm) (ph : Phase) (c : IrohClient) (told : List Message)
      → IsAct arm
      → c.phase ≡ ph
      → Agrees config.client_id ph greeting (handshake p ∷ c.sent) told
      → AgreesAhead (on_phase debug history codes unicode config w ph arm c) told
  unfolding on_phase on_acking
  on_phase-ahead arm waiting c told i e (a, b) = absurd (ground arith)
  on_phase-ahead arm ponging c told i e (inl (a, b)) = absurd (ground arith)
  on_phase-ahead arm ponging c told i e (inr (a, b)) = absurd (ground arith)
  on_phase-ahead (received (ok m)) (acking metadata path) c told i e a = absurd i
  on_phase-ahead (received (err x)) (acking metadata path) c told i e (g, b) = inr (inr g)
  on_phase-ahead _ (acking metadata path) c told i e a = stays (acking metadata path) c told e a
  on_phase-ahead arm (forwarding r s) c told i e a = absurd a
  on_phase-ahead arm (ended r) c told i e a = stays (ended r) c told e a

  pub on_phase-hears_ahead :
      (m : Message) (ph : Phase) (c : IrohClient) (rest : List Message)
      → c.phase ≡ ph
      → Agrees config.client_id ph greeting (handshake p ∷ c.sent) (m ∷ rest)
      → AgreesAhead (on_phase debug history codes unicode config w ph (received (ok m)) c) rest
  unfolding on_phase
  on_phase-hears_ahead m waiting c rest e (a, b) = absurd (ground arith)
  on_phase-hears_ahead m ponging c rest e (inl (a, b)) = absurd (ground arith)
  on_phase-hears_ahead m ponging c rest e (inr (a, b)) = absurd (ground arith)
  on_phase-hears_ahead m (acking metadata path) c rest e (g, b) = absurd (ground arith)
  on_phase-hears_ahead m (forwarding r s) c rest e a = absurd a
  on_phase-hears_ahead m (ended r) c rest e a = stays (ended r) c rest e a
