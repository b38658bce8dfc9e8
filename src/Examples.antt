-- ===== src/Examples.antt =====
-- Runs of the model on small inputs, with what they take: a serialiser for a few trust files, a file
-- system with one file, uinput that takes everything.
pub mod Conversation
pub mod Json
pub mod Trust
pub mod Wire
pub mod Client
pub mod Devices
pub mod Sessions
pub mod Forwarding
pub mod Keys
pub mod Units
pub mod Operation
pub mod Keepalive
pub mod Enrolment
pub mod Streaming
pub mod Status
pub mod Starting
pub mod Commands
use joycast.Prelude.{String, true, none, some, List, [], ◌∷◌, if◌then◌else◌}
use mathlib.Core.List.{Perm}
use mathlib.Core.List.Perm
use joycast.Prelude.Map.{Order, string_eq, ◌==◌}
use joycast.Prelude.Files.{FileSystem, File}

-- A map hands out its keys in the order of the list.
abbrev pub in_order : Order
in_order = record { arrange = λ ks. ks; arrange_perm = Perm.refl }

-- one file, that can be read and written; nothing can be done with other paths
abbrev pub only : String → String → FileSystem
only path text p =
    if p == path
    then record { content = some text; readable = true; writable = true }
    else record { content = none; readable = true; writable = true }
