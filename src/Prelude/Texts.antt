-- ===== src/Prelude/Texts.antt =====
-- The methods of texts that the program uses: white space, prefixes and lines.
use Prim.Native.Char.{Char, code}
use Prim.Native.Nat.{◌-◌}
use Prim.Native.String.{String, [], ◌∷◌, char_at}
use mathlib.Core.Bool.{Bool, true, false, ◌&&◌, ◌||◌}
use mathlib.Core.Option.{Option, none, some}
use mathlib.Core.List.{List, [] as no_lines, ◌∷◌ as ◌then_lines◌}
use smallgateway.Prelude.Tests.{leb, ◌==◌, if◌then◌else◌}

-- `char::is_whitespace`
abbrev pub is_whitespace : Char → Bool
is_whitespace c =
    let n = code c in
    (leb 9 n && leb n 13)
    || n == 32
    || n == 133
    || n == 160
    || n == 5760
    || (leb 8192 n && leb n 8202)
    || n == 8232
    || n == 8233
    || n == 8239
    || n == 8287
    || n == 12288

-- `s.trim().is_empty()`
unfoldable pub is_blank : String → Bool
is_blank [] = true
is_blank (c ∷ s) = is_whitespace c && is_blank s

-- `str::strip_prefix`
unfoldable pub strip_prefix : String → String → Option String
strip_prefix [] s = some s
strip_prefix (c ∷ p) [] = none
strip_prefix (c ∷ p) (d ∷ s) =
    let rest = strip_prefix p s in if code c == code d then rest else none

unfoldable pub trim_start : String → String
trim_start [] = []
trim_start (c ∷ s) = let rest = trim_start s in if is_whitespace c then rest else c ∷ s

abbrev pub is_empty : String → Bool
is_empty [] = true
is_empty (c ∷ s) = false

unfoldable pub trim_end : String → String
trim_end [] = []
trim_end (c ∷ s) =
    let rest = trim_end s in if is_whitespace c && is_empty rest then [] else c ∷ rest

unfoldable pub trim : String → String
trim s = trim_end (trim_start s)

-- the first line goes on with a character
abbrev pub onto_first : Char → List String → List String
onto_first c no_lines = (c ∷ []) then_lines no_lines
onto_first c (l then_lines ls) = (c ∷ l) then_lines ls

-- `text.split('\n')`
unfoldable pub split_lines : String → List String
split_lines [] = [] then_lines no_lines
split_lines (c ∷ s) =
    let rest = split_lines s in if code c == 10 then [] then_lines rest else onto_first c rest

-- `str::to_ascii_lowercase`
unfoldable pub to_ascii_lowercase : String → String
to_ascii_lowercase [] = []
to_ascii_lowercase (c ∷ s) =
    let rest = to_ascii_lowercase s in
    if leb 65 (code c) && leb (code c) 90
    then char_at "abcdefghijklmnopqrstuvwxyz" (code c - 65) ∷ rest
    else c ∷ rest
