-- ===== src/Prelude/Text.antt =====
-- The operations of Rust's `str` that the source uses, on the native texts.
use Prim.Native.Nat.{ℕ, zero, suc, ◌-◌, ◌/◌, ◌%◌}
use Prim.Native.Char.{Char, code}
use Prim.Native.String.{String, char_at, ◌++◌}
use mathlib.Core.Bool.{Bool, true, ◌&&◌, ◌||◌}
use text.Mathlib.Text.{starts_with}
use joycast.Prelude.Tests.{leb, ltb, eqb, if◌then◌else◌}

-- `char::is_whitespace`, the property White_Space of Unicode
unfoldable pub is_whitespace : ℕ → Bool
is_whitespace c =
    leb 9 c && leb c 13
    || eqb c 32
    || eqb c 133
    || eqb c 160
    || eqb c 5760
    || leb 8192 c && leb c 8202
    || eqb c 8232
    || eqb c 8233
    || eqb c 8239
    || eqb c 8287
    || eqb c 12288

unfoldable pub trim_start : String → String
trim_start String.[] = ""
trim_start (String.◌∷◌ c s) =
    let rest = trim_start s in if is_whitespace (code c) then rest else String.◌∷◌ c s

-- true of the empty text and of blanks only
unfoldable pub is_blank : String → Bool
is_blank String.[] = true
is_blank (String.◌∷◌ c s) = is_whitespace (code c) && is_blank s

unfoldable pub trim_end : String → String
trim_end String.[] = ""
trim_end (String.◌∷◌ c s) =
    let rest = String.◌∷◌ c (trim_end s) in
    if is_whitespace (code c) && is_blank s then "" else rest

unfoldable pub trim : String → String
unfolding trim_start trim_end is_blank is_whitespace
trim s = trim_end (trim_start s)

unfoldable pub lower_ascii : Char → Char
lower_ascii c =
    if leb 65 (code c) && leb (code c) 90
    then char_at "abcdefghijklmnopqrstuvwxyz" (code c - 65)
    else c

-- `str::to_lowercase`: ASCII is written out; `unicode` gives the lower case of any other character.
unfoldable pub to_lowercase : (Char → String) → String → String
unfolding lower_ascii
to_lowercase unicode String.[] = ""
to_lowercase unicode (String.◌∷◌ c s) =
    if ltb (code c) 128
    then String.◌∷◌ (lower_ascii c) (to_lowercase unicode s)
    else unicode c ++ to_lowercase unicode s

-- `str::contains` of a text
unfoldable pub contains : String → String → Bool
contains String.[] t = starts_with "" t
contains (String.◌∷◌ c s) t = starts_with (String.◌∷◌ c s) t || contains s t

unfoldable pub digit : ℕ → String
digit d = String.◌∷◌ (char_at "0123456789" d) ""

-- `Display` of an unsigned number, with fuel; each round drops a digit, so fuel above the number is
-- enough.
unfoldable pub decimal_digits : ℕ → ℕ → String
unfolding digit
decimal_digits zero n = ""
decimal_digits (suc fuel) n =
    let front = decimal_digits fuel (n / 10) in
    if ltb n 10 then digit n else front ++ digit (n % 10)

unfoldable pub to_decimal : ℕ → String
unfolding decimal_digits
to_decimal n = decimal_digits (suc n) n
