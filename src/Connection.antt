-- ===== src/Connection.antt =====
-- One Iroh connection: `run_iroh_client` of src/client.rs at one end of the stream and
-- `handle_iroh_client` of src/server.rs at the other, in any interleaving. The messages are taken off
-- the stream in the order in which they were written: `sent` of either end is what the other end has not
-- read yet.
pub mod Agreement
pub mod Asking
pub mod Reacting
pub mod Reading
pub mod Hearing
pub mod Answering
pub mod Run
pub mod Grant
pub mod Licensed
pub mod Serving
use Prim.Native.Char.{Char}
use joycast.Prelude.{String, List, [], ◌∷◌}
use joycast.Prelude.Outcome.{Result, ok, err, Codec}
use joycast.Prelude.Files.{FileSystem}
use joycast.Trust.{TrustData}
use joycast.Protocol.{Message}
use joycast.History.{KnownServerInfo}
use joycast.Device.{KeyCodes}
use joycast.Server.{Server, Moment}
use joycast.Server.Iroh.{Iroh, greeting}
use joycast.Server.Iroh.Turns as Turns
use joycast.Server.Iroh.Turns.{Task, waiting, reacting}
use joycast.Client.{DeviceSelection}
use joycast.Client.Udp.{Config}
use joycast.Client.Iroh.{IrohClient, World, Arm, received, begun}
use joycast.Client.Iroh as Client

pub record BothEnds : Type 0 where
  pub client : IrohClient
  pub handler : Iroh
  -- whether the handler waits for a frame, or where it stands in its reaction to a handshake
  pub task : Task

-- when the stream is open
abbrev pub opened : DeviceSelection → FileSystem → Server → BothEnds
opened selection files server = record {
  client = begun selection files;
  handler = record { server = server; phase = greeting; sent = [] };
  task = waiting;
}

pub data Turn : Type 0 where
  -- an arm of the client's that reads no frame
  acts : World → Arm → Turn
  -- the client reads the next frame, or cannot
  hears : World → Turn
  loses : World → String → Turn
  -- A turn of the handler's task: it reads the next frame, if it waits for one, or does the next
  -- piece of its reaction. It can write what the function takes.
  handler_turns : Moment → (Message → Result (Unit {0})) → Turn
  -- it waits for a frame, and cannot read
  handler_loses : Moment → (Message → Result (Unit {0})) → String → Turn
  -- other tasks leave the server in this state
  others : Server → Turn

module _ (trust : Codec TrustData String) (history : Codec (List KnownServerInfo) String)
    (debug : Message → String) (codes : KeyCodes) (unicode : Char → String) (config : Config) where
  abbrev pub client_step : World → Arm → BothEnds → BothEnds
  client_step w arm k = record k {
    client = Client.step debug history codes unicode config w arm k.client;
  }

  abbrev pub handler_step :
      Moment → (Message → Result (Unit {0})) → Result Message → BothEnds → BothEnds
  handler_step m write read k = record k {
    task = (Turns.turn trust debug m (record { read = read; write = write }) (k.task, k.handler)).0;
    handler =
        (Turns.turn trust debug m (record { read = read; write = write }) (k.task, k.handler)).1;
  }

  -- the client takes the next frame off the stream, if one is there
  unfoldable pub client_reads : World → List Message → BothEnds → BothEnds
  client_reads w [] k = k
  client_reads w (message ∷ rest) k =
      client_step w (received (ok message))
        (record k { handler = record k.handler { sent = rest } })

  -- so does the handler, if it waits for a frame; a piece of its reaction reads nothing
  unfoldable pub handler_reads :
      Moment → (Message → Result (Unit {0})) → Task → List Message → BothEnds → BothEnds
  handler_reads m write (reacting p point) l k = handler_step m write (err "") k
  handler_reads m write waiting [] k = k
  handler_reads m write waiting (message ∷ rest) k =
      handler_step m write (ok message) (record k { client = record k.client { sent = rest } })

  unfoldable pub handler_fails :
      Moment → (Message → Result (Unit {0})) → String → Task → BothEnds → BothEnds
  handler_fails m write e (reacting p point) k = k
  handler_fails m write e waiting k = handler_step m write (err e) k

  unfoldable pub turn : Turn → BothEnds → BothEnds
  turn (acts w (received r)) k = k
  turn (acts w arm) k = client_step w arm k
  turn (hears w) k = client_reads w k.handler.sent k
  turn (loses w e) k = client_step w (received (err e)) k
  turn (handler_turns m write) k = handler_reads m write k.task k.client.sent k
  turn (handler_loses m write e) k = handler_fails m write e k.task k
  turn (others server) k = record k { handler = record k.handler { server = server } }

  -- a run of the connection
  unfoldable pub run : List Turn → BothEnds → BothEnds
  run [] k = k
  run (t ∷ rest) k = run rest (turn t k)
