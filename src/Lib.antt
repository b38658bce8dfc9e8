-- ===== src/Lib.antt =====
-- Joycast forwards game controllers over the network: a client reads the events of local input
-- devices and sends them, over Direct UDP or over an Iroh stream, to a server that replays them on
-- virtual devices (uinput). A client is served only if the server's trust store has approved it.
--
-- The parts, and the files that model them:
--
-- Trust (src/trust.rs): `TrustManager`, the pending and approved clients, kept in a JSON file that
-- the server and the command line share. `load`, `new`, `reload`, `save`, `is_approved`,
-- `register_pending`, `approve`, `revoke`, `list_pending` and `list_approved` have the names of
-- the methods, those behind the operator's commands in Trust/Commands; a method whose body goes on
-- after its reload is split there (`approve_loaded`, `revoke_loaded`, `record_pending`).
-- Trust/Disk relates memory and file, Trust/Invariant has the rule for properties that every
-- method keeps, and Trust/Status the abstract states of a client; Approval, Revocation,
-- Registration, Enrolment, Unambiguous, Race, Consistency, Listing and Status/Refinement hold the
-- theorems.
--
-- Protocol (src/protocol.rs): the messages. Protocol/Frame: `read_frame` and `write_frame` of
-- src/server.rs, on lists of bytes; Protocol/Frame/Stream has the theorems.
--
-- Device (src/device.rs): classification and `extract_metadata`; Device/Listing: the devices that
-- are listed; Device/Output: `VirtualOutput`. Device/Scan and Device/Output/Mirror have the
-- theorems.
--
-- Transport (src/transport.rs): `TargetAddress` and its parser; Transport/Parse relates it to what
-- a text denotes.
--
-- History (src/history.rs): `HistoryStore`; History/Record has the theorems.
--
-- Server (src/server.rs): the table of sessions that both listeners and the reaper share.
-- Server/Udp: the loop of `run_udp_server`, a datagram at a time; Server/Iroh:
-- `handle_iroh_client`, a frame at a time, its place in the body a `Phase`. A step takes the
-- shared state and returns it, with the messages it sent; what it reads of the world (clocks, host
-- name, uinput's answers) is a `Moment`. Server/Iroh/Serve runs the handler on the bytes of a
-- stream, Server/Start has `bind` and the listeners of `run`. Server/Session, Server/Alive,
-- Access, Kept, Served, Enrolment, Events and Alive of Server/Udp, Access, Kept, Served,
-- Enrolment, Serve and Replay of Server/Iroh, and Server/Start/Stable have the theorems.
--
-- Client (src/client.rs): the choice of the target and of the device, and how a lost device is
-- found again; Client/Start: `new` and `run`; Client/Udp and Client/Iroh: `run_udp_client` and
-- `run_iroh_client`, an arm of their `select!` at a time, their place in the body a `Phase`.
-- Client/Target, Client/Reopen, Client/Start/Identity, Client/Udp/Forwarding, and Forwarding and
-- Admission of Client/Iroh have the theorems. Delivery and Delivery/Order join these loops with
-- the server's, in the order in which the client writes. Connection has both ends of one stream,
-- in any interleaving: what an end has written and the other has not read is a list, first in,
-- first out. The handler takes the turns of Server/Iroh/Turns there, and other tasks may change
-- the server between them. Connection/Agreement relates the phases of the two ends and what is on
-- the stream; Asking, Hearing and Reacting have the client's steps, Answering and Serving the
-- handler's, Reading what either does with the message that comes next; Licensed follows the
-- lookup and the acknowledgment that admit a client; Run and Grant have the theorems.
--
-- System (`JoycastServer::run` of src/server.rs, and the commands of src/main.rs that work on the
-- same trust file): a relation `Step` on the state that the listeners, the reaper and the
-- operator's commands share, and `Reach`, any number of steps. The reaction to a handshake is cut
-- into pieces there: Server/Reaction has the pieces of `is_approved` and `register_pending`, each
-- of which reads the trust file, or does what the source does under one lock, and Turns of
-- Server/Udp and of Server/Iroh have the turns of the two tasks. What a listener does with any
-- other message is one turn, and so is a round of the reaper. A command makes its manager, reloads
-- it, and does the rest, in three steps; connections and commands are any number. Between two
-- steps any other may come. The test whether the trust file is there and the reading of it are one
-- step, and so is a write of the file. Turns/Uninterrupted relates the turns to the steps of
-- Server/Udp and Server/Iroh. Server/Guard, Turns/Guard and System/Safe have what each step keeps,
-- Server/Owner whose session a key stands for, and System/Licence the theorems.
--
-- CommandLine (src/main.rs): `Commands` and what `main` calls for each. CommandLine/Frame and
-- CommandLine/Approval have the theorems.
--
-- Server/Key: `parse_secret_key_hex` and `load_or_create_secret_key`; Server/Key/Stable has the
-- theorem.
--
-- Service (src/service.rs): `ServiceManager`, each method as the list of what it asks of the
-- system, and what this leaves of the files; Service/Commands has the theorem, and Service/Unit
-- what `install` and `uninstall` leave alone.
--
-- Prelude: results, maps as association lists, texts, sorting, the file system. Examples: runs on
-- concrete inputs.
--
-- A Rust method that takes `&self` and changes what is behind a mutex takes the state and returns
-- it. An error is the text of its outermost message. Time is a number of nanoseconds, or the text
-- that the clock's formatter gives. The order in which a hash map hands out its keys is a
-- parameter, `Order`. Parameters, too, are serde_json and postcard (`Codec`, with the law that
-- what is written is read back), the parsers of the standard library and of Iroh (`Addresses`),
-- the key codes of evdev (`KeyCodes`), the crate hex (`Hex`), the lower case of letters beyond
-- ASCII, and each answer of uinput (`Uinput`).
--
-- Bounds: a number of the wire is kept as the number that it stands for; `as u32` of a frame's
-- length and `as u16` of an axis are written out as remainders. `to_decimal` runs on fuel, one
-- more than the number, and each round drops a digit. `serve` runs on fuel, one round for each
-- byte of the stream and one more, and each round but the last takes at least the four bytes of a
-- length.
--
-- Not modelled: the sockets and endpoints themselves, of which the answers are given; the
-- accepting of connections; the parser of the command line, which clap derives; logging and what
-- is printed; the pauses before a connection is closed; the panic of an attribute set of evdev on
-- a code out of its range; the creation of directories whose errors the source ignores; src/lib.rs
-- and examples/main.rs, which hold no logic; and the patched crate under patches/, another
-- project's, which the sources call only through Iroh.
pub mod Prelude
pub mod Trust
pub mod Protocol
pub mod Device
pub mod Transport
pub mod History
pub mod Server
pub mod Client
pub mod CommandLine
pub mod Connection
pub mod Delivery
pub mod Service
pub mod System
pub mod Examples
