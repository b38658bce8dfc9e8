-- ===== src/Prelude/Files.antt =====
-- `std::fs` on whole files: what is at a path, whether it can be read, and whether it can be
-- written. A write replaces the content or leaves the file as it was; the kernel's partial writes
-- and the creation of directories (whose result the source drops) are not modelled.
use Prim.Native.String.{String}
use mathlib.Core.Bool.{Bool, true, false}
use mathlib.Core.Option.{Option, none, some}
use text.Mathlib.Text.{◌==◌}
use joycast.Prelude.Tests.{if◌then◌else◌}
use joycast.Prelude.Outcome.{Result, ok, err}

pub record File : Type 0 where
  pub content : Option String
  pub readable : Bool
  pub writable : Bool

abbrev pub FileSystem : Type 0
FileSystem = String → File

-- `Path::exists`
unfoldable pub exists : FileSystem → String → Bool
exists fs path = elim (fs path).content [ none ↦ false | some text ↦ true ]

-- `fs::read_to_string`
unfoldable pub read_to_string : FileSystem → String → Result String
read_to_string fs path = elim (fs path).content [
  | none ↦ err "No such file or directory (os error 2)"
  | some text ↦ if (fs path).readable then ok text else err "Permission denied (os error 13)"
]

unfoldable pub set_content : FileSystem → String → String → FileSystem
set_content fs path text p = if path == p then record (fs p) { content = some text } else fs p

-- `fs::write`
unfoldable pub write : FileSystem → String → String → Result (Unit {0}) × FileSystem
write fs path text =
    if (fs path).writable
    then (ok tt, set_content fs path text)
    else (err "Permission denied (os error 13)", fs)
