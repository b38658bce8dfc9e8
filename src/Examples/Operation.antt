-- ===== src/Examples/Operation.antt =====
-- A run of the whole server: `deck` waits and greets over Iroh, and is approved before its handler
-- reads the trust file.
use text.Mathlib.TextEquality.{eq_iff}
use joycast.Prelude.{String, ◌≡◌, refl, sym, subst, true, none, some, arith, find}
use joycast.Prelude.Map.{string_eq, get, contains_key, find_key, insert, remove}
use joycast.Prelude.Map.Laws.{Distinct}
use joycast.Prelude.Files.{FileSystem, exists, read_to_string, write, set_content}
use joycast.Trust.{
  Environment, TrustData, TrustManager, new, reload, is_approved, approve_match, save,
  move_approved,
}
use joycast.Trust.Commands.{match_id, approve_loaded}
use joycast.Trust.Disk.{stored, current}
use joycast.Trust.Consistency.{IsConsistent}
use joycast.Transport.{SocketAddr, socket_addr_eq}
use joycast.System.{
  System, idle, created, loaded, frame, command_new, command_reload, command_approve, Reach, here,
  next, started, with_command, with_files, with_iroh, iroh_view,
}
use joycast.Server.Guard.{IsLicensed, IsGranted}
use joycast.System.Licence.{Reach-IsGranted, Reach-IsOwned}
use joycast.Server.{session_key, create_session}
use joycast.Device.{extract_metadata}
use joycast.Device.Output.{new_with_name, add_abs_axes}
use joycast.Server.Owner.{HasNoColon}
use joycast.Protocol.{HandshakePayload}
use joycast.Server.Iroh as Handler
use joycast.Server.Iroh.{enter}
use joycast.Server.Reaction.{checking, consult, remember}
use joycast.Server.Iroh.Turns as Streams
use joycast.Server.Iroh.Turns.{reacting}
use joycast.Examples.{in_order, only}
use joycast.Examples.Json.{json, encode, decode, waiting}
use joycast.Examples.Trust.{waiting-IsConsistent}
use joycast.Examples.Wire.{small}
use joycast.Examples.Sessions.{now, said, from_deck, debug}

abbrev system_env : Environment
system_env = record {
  user = none;
  sudo_user = none;
  journal_stream = none;
  systemd_exec_pid = none;
  config_dir = none;
}

abbrev pub files : FileSystem
files = only "/etc/joycast/trusted_clients.json" "w"

-- the only client that the operator approves
abbrev OnlyDeck : String → Type 0
OnlyDeck id = id ≡ "c0ffee"

abbrev tm : TrustManager
tm = reload json files (new json system_env files none)

abbrev resting : System
resting = started files (new json system_env files none)

abbrev greeted : System
greeted =
    with_iroh 0 (with_command 0 resting (created (new json system_env files none)))
      (reacting from_deck checking, iroh_view 0 resting)

abbrev approved : System
approved =
    with_command 0
      (with_files (with_command 0 greeted (loaded tm))
        (approve_loaded json in_order "c0f" "2026-01-02" files tm).1)
      idle

-- a turn of the handler of connection 0, when `deck` has greeted it
abbrev turned : System → System
turned s =
    with_iroh 0 s
      (Streams.turn json debug now (said from_deck) ((s.connections 0).task, iroh_view 0 s))

abbrev last : System
last = turned (turned (turned (turned approved)))

picked : (id : String) → match_id in_order tm.memory.pending "c0f" ≡ some id → OnlyDeck id
unfolding reload new exists read_to_string decode match_id contains_key get find_key find
picked id h = ground arith

run : Reach small json in_order debug OnlyDeck resting last
unfolding Streams.turn Streams.receive
run =
    let begun = next (next here (command_new 0 system_env)) (frame now (said from_deck) 0) in
    let granted =
      next (next begun (command_reload 0 (new json system_env files none) refl))
        (command_approve 0 tm "c0f" "2026-01-02" refl picked) in
    next
      (next (next (next granted (frame now (said from_deck) 0)) (frame now (said from_deck) 0))
        (frame now (said from_deck) 0))
      (frame now (said from_deck) 0)

in_file : (path : String) (d : TrustData) → stored json files path ≡ some d → d ≡ waiting
unfolding stored read_to_string decode
in_file path d h = ground (arith, eq_iff path "/etc/joycast/trusted_clients.json")

waiting-IsLicensed : IsLicensed OnlyDeck waiting
unfolding contains_key get
waiting-IsLicensed = record {
  consistent = waiting-IsConsistent;
  within = λ j c. absurd (ground arith);
}

clean : (path : String) (d : TrustData) → stored json files path ≡ some d → IsLicensed OnlyDeck d
clean path d h = subst (IsLicensed OnlyDeck) (sym (in_file path d h)) waiting-IsLicensed

Reach-IsGranted_example :
    ((k : String) → contains_key last.server.sessions k ≡ true → IsGranted OnlyDeck k)
    × ((a : SocketAddr) (k : String) → get last.client_sessions a ≡ some k → IsGranted OnlyDeck k)
    × ((id : String)
        → (is_approved json id last.server.files last.server.trust).0 ≡ true
        → OnlyDeck id)
    × Distinct last.server.sessions
    × IsConsistent (current json last.server.files last.server.trust)
Reach-IsGranted_example =
    Reach-IsGranted small json in_order debug OnlyDeck system_env files last clean run

deck_plain : (id : String) → OnlyDeck id → HasNoColon id
deck_plain id e = subst HasNoColon (sym e) ((cc), ((cc), ((cc), ((cc), ((cc), ((cc), tt))))))

deck_plays : contains_key last.server.sessions "c0ffee:pad1" ≡ true
unfolding contains_key get Streams.turn Streams.receive Streams.at Streams.advance consult remember
    stored approve_loaded match_id reload new decode encode find_key find approve_match save write
    set_content exists read_to_string insert remove move_approved enter Handler.write create_session
    new_with_name add_abs_axes extract_metadata session_key
deck_plays = refl

Reach-IsOwned_example :
    (id : String) × OnlyDeck id
    × ((q : HandshakePayload)
        → session_key q ≡ "c0ffee:pad1"
        → OnlyDeck q.client_id
        → q.client_id ≡ id)
Reach-IsOwned_example =
    Reach-IsOwned small json in_order debug OnlyDeck system_env files last "c0ffee:pad1" clean
      deck_plain run deck_plays
