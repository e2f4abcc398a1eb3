-- ===== src/Base/Strings.antt =====
-- The methods of `str` that the source uses: `lines`, `trim`, `split_whitespace`, `contains`,
-- `strip_prefix` and `join`.
pub mod Breaks
use Prim.Native.Nat.{ℕ}
use Prim.Native.Char.{Char, code}
use Prim.Native.String.{String, len, slice}
use mathlib.Core.Bool.{Bool, true, false, not}
use mathlib.Core.Option.{Option, none, some}
use mathlib.Core.List.{List, [], ◌∷◌, map}
use text.Mathlib.Text.{starts_with, find?}
use text.Mathlib.TextBridge.{of_list}
use memix.Base.Chars.{chars}
use memix.Base.Tests.{leb, nat_beq, if◌then◌else◌, both}
use memix.Base.Lists.{reverse}
use memix.Base.Text.{concat}

abbrev either : Bool → Bool → Bool
either true b = true
either false b = b

abbrev within : ℕ → ℕ → ℕ → Bool
within low high n = both (leb low n) (leb n high)

-- `char::is_whitespace`, the property White_Space of Unicode.
unfoldable pub is_whitespace : Char → Bool
is_whitespace c =
    let n = code c in
    either (within 9 13 n) (
      either (nat_beq n 32) (
        either (nat_beq n 133) (
          either (nat_beq n 160) (
            either (nat_beq n 5760) (
              either (within 8192 8202 n) (
                either (within 8232 8233 n)
                  (either (nat_beq n 8239) (either (nat_beq n 8287) (nat_beq n 12288)))))))))

-- A carriage return before the line break belongs to it.
strip_return : List Char → List Char
strip_return [] = []
strip_return (c ∷ cs) = if nat_beq (code c) 13 then cs else c ∷ cs

-- `current` is the line so far, its last character first.
lines_from : List Char → List Char → List (List Char)
unfolding strip_return
lines_from current [] = elim current [ [] ↦ [] | x ∷ xs ↦ reverse (x ∷ xs) ∷ [] ]
lines_from current (c ∷ cs) =
    let ends = nat_beq (code c) 10 in
    let rest = lines_from (if ends then [] else c ∷ current) cs in
    if ends then reverse (strip_return current) ∷ rest else rest

unfoldable pub lines : String → List String
unfolding lines_from
lines s = map of_list (lines_from [] (chars s))

words_from : List Char → List Char → List (List Char)
words_from current [] = elim current [ [] ↦ [] | x ∷ xs ↦ reverse (x ∷ xs) ∷ [] ]
words_from current (c ∷ cs) =
    let ends = is_whitespace c in
    let rest = words_from (if ends then [] else c ∷ current) cs in
    if both ends (not (elim current [ [] ↦ true | _ ∷ _ ↦ false ]))
    then reverse current ∷ rest
    else rest

unfoldable pub split_whitespace : String → List String
unfolding words_from
split_whitespace s = map of_list (words_from [] (chars s))

drop_while : (Char → Bool) → List Char → List Char
drop_while p [] = []
drop_while p (c ∷ cs) = let rest = drop_while p cs in if p c then rest else c ∷ cs

-- `trim_matches`
unfoldable pub trim_matches : (Char → Bool) → String → String
unfolding drop_while
trim_matches p s = of_list (reverse (drop_while p (reverse (drop_while p (chars s)))))

unfoldable pub trim : String → String
unfolding trim_matches
trim s = trim_matches is_whitespace s

unfoldable pub contains_text : String → String → Bool
contains_text s t = elim (find? s t) [ none ↦ false | some i ↦ true ]

unfoldable pub strip_prefix : String → String → Option String
strip_prefix prefix s = if starts_with s prefix then some (slice s (len prefix) (len s)) else none

unfoldable pub join : String → List String → String
join separator [] = ""
join separator (s ∷ []) = s
join separator (s ∷ t ∷ ts) = concat s (concat separator (join separator (t ∷ ts)))

-- `split(c).next()`: what stands before the first such character.
take_until : (Char → Bool) → List Char → List Char
take_until p [] = []
take_until p (c ∷ cs) = let rest = take_until p cs in if p c then [] else c ∷ rest

unfoldable pub before_first : (Char → Bool) → String → String
unfolding take_until
before_first p s = of_list (take_until p (chars s))
