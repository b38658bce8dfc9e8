-- ===== src/Client/Iroh/Admission.antt =====
-- What a run of `run_iroh_client` of src/client.rs has met when it is in its main loop.
use Prim.Native.Char.{Char}
use joycast.Prelude.{String, Bool, ◌≡◌, refl, List, [], ◌∷◌, ◌⊎◌, inl, inr}
use joycast.Prelude.Outcome.{ok, Codec}
use joycast.Prelude.Files.{FileSystem}
use joycast.Protocol.{Message, handshake_ack, approved}
use joycast.History.{KnownServerInfo}
use joycast.Device.{KeyCodes}
use joycast.Client.{ReconnectingDevice, DeviceSelection}
use joycast.Client.Udp.{Config}
use joycast.Client.Iroh.{
  Phase, acking, forwarding, IrohClient, World, Arm, received, begun, step, steps,
}
use joycast.Client.Iroh.Forwarding.{IsAdmitted, step-IsAdmitted}

abbrev pub IsForwarding : Phase → Type 0
IsForwarding ph = (r : ReconnectingDevice) × (stream : Bool) × (ph ≡ forwarding r stream)

-- a frame of the server that approves the client
abbrev pub IsApproving : Arm → Type 0
IsApproving arm =
    (host : String) × (text : String) × (arm ≡ received (ok (handshake_ack approved host text)))

-- one of the arms is such a frame
abbrev pub WasApproved : List (World × Arm) → Type 0
WasApproved [] = ⊥
WasApproved ((w, arm) ∷ arms) = IsApproving arm ⊎ WasApproved arms

module _ (debug : Message → String) (json : Codec (List KnownServerInfo) String) (codes : KeyCodes)
    (unicode : Char → String) (config : Config) where
  admitted :
      (ph : Phase) (arm : Arm)
      → IsAdmitted debug json codes unicode ph arm
      → IsForwarding ph ⊎ IsApproving arm
  admitted (forwarding r stream) arm a = inl (r, stream, refl)
  admitted (acking metadata path) (received (ok message)) (host, text, e) =
      inr (host, text, rw e refl)
  admitted ph arm a = absurd a

  steps-IsForwarding :
      (arms : List (World × Arm)) (c : IrohClient)
      → IsForwarding (steps debug json codes unicode config arms c).phase
      → IsForwarding c.phase ⊎ WasApproved arms
  unfolding steps
  steps-IsForwarding [] c f = inl f
  steps-IsForwarding ((w, arm) ∷ arms) c f =
      elim (steps-IsForwarding arms (step debug json codes unicode config w arm c) f) [
        | inr later ↦ inr (inr later)
        | inl (r, stream, e) ↦
            elim (admitted c.phase arm
              (step-IsAdmitted debug json codes unicode config w arm c r stream e)) [
                | inl before ↦ inl before
                | inr now ↦ inr (inl now)
              ]
      ]

  -- A run of the Iroh client from its beginning is in its main loop, where it forwards input, only
  -- if a frame of the server has approved it in the run.
  pub steps-WasApproved :
      (selection : DeviceSelection) (files : FileSystem) (arms : List (World × Arm))
      → IsForwarding (steps debug json codes unicode config arms (begun selection files)).phase
      → WasApproved arms
  steps-WasApproved selection files arms f =
      elim (steps-IsForwarding arms (begun selection files) f) [
        | inl (r, stream, e) ↦ cc
        | inr was ↦ was
      ]
