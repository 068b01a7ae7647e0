-- ===== src/Prelude/Strings.antt =====
-- The methods of Rust's `str` that take a text apart and put it together.
use Prim.Native.Nat.{ℕ, ◌+◌}
use mathlib.Core.Bool.{Bool, ◌&&◌, ◌||◌}
use mathlib.Core.Option.{Option, none, some}
use mathlib.Core.List.{List, [], ◌∷◌, ◌++◌}
use supermemory_rs.Prelude.Tests.{◌==◌, ltb, if◌then◌else◌}
use supermemory_rs.Prelude.Chars.{Text, is_empty, is_whitespace, starts_with}

-- The code units of a text in UTF-16: a code point of the supplementary planes takes two.
abbrev pub len_utf16 : ℕ → ℕ
len_utf16 c = if ltb c 0x10000 then 1 else 2

unfoldable pub utf16_len : Text → ℕ
utf16_len [] = 0
utf16_len (c ∷ text) = len_utf16 c + utf16_len text

-- `str::contains` of a text.
unfoldable pub contains : Text → Text → Bool
contains [] part = is_empty part
contains (c ∷ text) part = starts_with (c ∷ text) part || contains text part

-- The last character.
unfoldable pub last_char : Text → Option ℕ
last_char [] = none
last_char (c ∷ text) = elim (last_char text) [ none ↦ some c | some d ↦ some d ]

-- A character before the pieces of the rest: it starts the first of them.
unfoldable pub before_first : ℕ → List Text → List Text
before_first c [] = (c ∷ []) ∷ []
before_first c (p ∷ ps) = (c ∷ p) ∷ ps

-- `str::split` at a character: one piece more than there are separators.
unfoldable pub split : ℕ → Text → List Text
unfolding before_first
split separator [] = [] ∷ []
split separator (c ∷ text) =
    let rest = split separator text in if c == separator then [] ∷ rest else before_first c rest

-- A line that a line feed ends, without a carriage return before it.
unfoldable pub strip_return : Text → Text
strip_return [] = []
strip_return (c ∷ text) =
    let rest = strip_return text in if (c == 0x0d) && is_empty text then [] else c ∷ rest

-- The pieces between line feeds as `str::lines` gives them: the last is left out if it is empty.
unfoldable pub as_lines : List Text → List Text
unfolding strip_return
as_lines [] = []
as_lines (p ∷ []) = if is_empty p then [] else p ∷ []
as_lines (p ∷ q ∷ ps) = strip_return p ∷ as_lines (q ∷ ps)

unfoldable pub lines : Text → List Text
unfolding split as_lines
lines text = as_lines (split 0x0a text)

-- `join` of a list of texts.
unfoldable pub join : Text → List Text → Text
join separator [] = []
join separator (p ∷ []) = p
join separator (p ∷ q ∷ ps) = p ++ separator ++ join separator (q ∷ ps)

-- The pieces between white space, some of which are empty.
unfoldable pub split_at_whitespace : Text → List Text
unfolding before_first
split_at_whitespace [] = [] ∷ []
split_at_whitespace (c ∷ text) =
    let rest = split_at_whitespace text in
    if is_whitespace c then [] ∷ rest else before_first c rest

unfoldable pub nonempty : List Text → List Text
nonempty [] = []
nonempty (p ∷ ps) = let rest = nonempty ps in if is_empty p then rest else p ∷ rest

-- `str::split_whitespace`
unfoldable pub split_whitespace : Text → List Text
unfolding split_at_whitespace nonempty
split_whitespace text = nonempty (split_at_whitespace text)
