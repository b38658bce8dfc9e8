-- ===== src/Delivery.antt =====
-- From the controller to the virtual device: `run_udp_client` of src/client.rs on one side,
-- `run_udp_server` of src/server.rs on the other, and a datagram that arrives.
pub mod Order
use Prim.Native.Char.{Char}
use joycast.Prelude.{ℕ, String, ◌≡◌, ap, ◌∙◌, true, some, List, [], ◌∷◌, ◌++◌}
use joycast.Prelude.Outcome.{ok, Codec}
use joycast.Prelude.Map.{string_eq, get, eq_self}
use joycast.Trust.{TrustData}
use joycast.Protocol.{EventWire, Wire, encode}
use joycast.Transport.{SocketAddr, socket_addr_eq}
use joycast.History.{KnownServerInfo}
use joycast.Device.{KeyCodes}
use joycast.Device.Output.{InputEvent}
use joycast.Server.{Moment, SessionEntry}
use joycast.Server.Udp.{Udp, datagram, step, on_message}
use joycast.Server.Udp.Events.{Takes, played, on_events_lem}
use joycast.Client.{ReconnectingDevice, event_message}
use joycast.Client.Udp as ClientLoop
use joycast.Client.Udp.{UdpClient, World, Config, forwarding, event}
use joycast.Client.Udp.Forwarding.{step-event}

-- the event as it is on the wire
abbrev pub on_wire : InputEvent → EventWire
on_wire e = record { type_ = e.type_; code = e.code; value = e.value }

module _ (wire : Wire) (trust : Codec TrustData String)
    (history : Codec (List KnownServerInfo) String) (codes : KeyCodes)
    (unicode : Char → String) where
  -- An event of the client's controller makes the client send one datagram; where this arrives from
  -- an address that is bound to a session, the session's virtual device emits exactly this event,
  -- in a batch of its own, after all that it emitted before. The message can be encoded, and the
  -- client's socket and the server's kernel take it.
  pub step-step :
      (config : Config) (w : World) (e : InputEvent) (r : ReconnectingDevice) (c : UdpClient)
      (bytes : List ℕ) (m : Moment) (src : SocketAddr) (udp : Udp) (key : String) (s : SessionEntry)
      → c.phase ≡ forwarding r true
      → encode wire (event_message e) ≡ ok bytes
      → w.send bytes ≡ ok tt
      → Takes m.uinput
      → get udp.client_sessions src ≡ some key
      → get udp.server.sessions key ≡ some s
      → ((ClientLoop.step wire history codes unicode config w (event e) c).sent
          ≡ c.sent ++ bytes ∷ [])
        × (get (step wire trust m (datagram bytes src) udp).server.sessions key
            ≡ some (played m (on_wire e ∷ []) s (s.vdev.device.emitted ++ (e ∷ []) ∷ [])))
  unfolding step on_message event_message
  step-step config w e r c bytes m src udp key s p x t takes bound there =
      let hit = on_events_lem wire trust m src [] (on_wire e) udp key s takes bound there in
      (
        ap (λ (u : UdpClient). u.sent)
            (step-event wire history codes unicode config w e r bytes c p x t),
        rw (wire.decode-encode (event_message e) bytes x, step) (hit.0 key ∙ rw (eq_self key)),
      )
