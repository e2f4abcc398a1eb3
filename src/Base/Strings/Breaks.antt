-- ===== src/Base/Strings/Breaks.antt =====
-- Line breaks of texts, counted through `lines` and `join`.
use Prim.Native.Nat.{suc, max, ℕ, ◌+◌, ◌≤◌}
use Prim.Native.Char.{Char, code}
use Prim.Native.String.{String}
use mathlib.Core.Path.{◌≡◌, refl, ap, ◌∙◌}
use mathlib.Core.List.{List, [], ◌∷◌, map}
use native.Mathlib.Omega.{arith}
use text.Mathlib.TextBridge.{of_list}
use memix.Base.Tests.{if_keeps, nat_beq, if◌then◌else◌}
use memix.Base.Lists.{All, count, count-append, length, reverse}
use memix.Base.Chars.{chars, chars-append}
use memix.Base.Text.{concat}
use memix.Base.Strings.{strip_return, lines_from, lines, join}

chars-of_list : (cs : List Char) → chars (of_list cs) ≡ cs
unfolding chars
chars-of_list [] = refl
chars-of_list (c ∷ cs) = ap (λ xs. c ∷ xs) (chars-of_list cs)

abbrev breaks : List Char → ℕ
breaks cs = count (λ c. nat_beq (code c) 10) cs

-- A text without a line break.
pub OneLine : String → Type 0
OneLine s = breaks (chars s) ≡ 0

breaks-reverse : (cs : List Char) → breaks (reverse cs) ≡ breaks cs
breaks-reverse [] = refl
breaks-reverse (c ∷ cs) =
    omega (arith, count-append (λ c. nat_beq (code c) 10) (reverse cs) (c ∷ []), breaks-reverse cs)

breaks-strip_return : (cs : List Char) → breaks cs ≡ 0 → breaks (strip_return cs) ≡ 0
unfolding strip_return
breaks-strip_return [] h = refl
breaks-strip_return (c ∷ cs) h = ground (arith, h)

lines_from-breaks :
    (current cs : List Char) → breaks current ≡ 0 → All (λ l. breaks l ≡ 0) (lines_from current cs)
unfolding lines_from
lines_from-breaks [] [] h = tt
lines_from-breaks (x ∷ xs) [] h = (omega (arith, breaks-reverse (x ∷ xs), h), tt)
lines_from-breaks current (c ∷ cs) h =
    if_keeps (All (λ l. breaks l ≡ 0)) (nat_beq (code c) 10) _ _
      (λ t. (
        omega (arith, breaks-reverse (strip_return current), breaks-strip_return current h),
        lines_from-breaks (if nat_beq (code c) 10 then [] else c ∷ current) cs
            (ground (arith, t, h)),
      ))
      (λ f.
        lines_from-breaks (if nat_beq (code c) 10 then [] else c ∷ current) cs
          (ground (arith, f, h)))

All-of_list : (ls : List (List Char)) → All (λ l. breaks l ≡ 0) ls → All OneLine (map of_list ls)
unfolding OneLine
All-of_list [] a = tt
All-of_list (l ∷ ls) a = (ap breaks (chars-of_list l) ∙ a.0, All-of_list ls a.1)

-- `lines` gives texts without a line break.
pub lines-OneLine : (s : String) → All OneLine (lines s)
unfolding lines
lines-OneLine s = All-of_list (lines_from [] (chars s)) (lines_from-breaks [] (chars s) refl)

length-lines_from_le : (current cs : List Char) → length (lines_from current cs) ≤ suc (breaks cs)
unfolding lines_from
length-lines_from_le [] [] = omega arith
length-lines_from_le (x ∷ xs) [] = omega arith
length-lines_from_le current (c ∷ cs) =
    ground (arith, length-lines_from_le (if nat_beq (code c) 10 then [] else c ∷ current) cs)

length-of_list : (ls : List (List Char)) → length (map of_list ls) ≡ length ls
length-of_list [] = refl
length-of_list (l ∷ ls) = omega (arith, length-of_list ls)

breaks-concat : (s t : String) → breaks (chars (concat s t)) ≡ breaks (chars s) + breaks (chars t)
breaks-concat s t =
    ap breaks (chars-append s t) ∙ count-append (λ c. nat_beq (code c) 10) (chars s) (chars t)

breaks-newline : breaks (chars "\n") ≡ 1
unfolding chars
breaks-newline = refl

breaks-join :
    (ls : List String) → All OneLine ls → suc (breaks (chars (join "\n" ls))) ≤ max 1 (length ls)
unfolding join OneLine chars
breaks-join [] a = omega arith
breaks-join (l ∷ []) a = omega (arith, a.0)
breaks-join (l ∷ m ∷ ms) a =
    let tail = join "\n" (m ∷ ms) in
    let whole : breaks (chars (join "\n" (l ∷ m ∷ ms))) ≡ 1 + breaks (chars tail) =
      breaks-concat l (concat "\n" tail)
      ∙ omega (arith, a.0, breaks-concat "\n" tail, breaks-newline) in
    let rest : suc (breaks (chars tail)) ≤ suc (length ms) =
      omega (arith, breaks-join (m ∷ ms) a.1) in
    omega (arith, whole, rest)

-- Joined lines read back are no more than they were.
pub length-lines-join_le :
    (ls : List String) → All OneLine ls → length (lines (join "\n" ls)) ≤ length ls
unfolding lines join chars lines_from
length-lines-join_le [] a = (omega arith)
length-lines-join_le (l ∷ ls) a = omega (
  arith,
  length-lines_from_le [] (chars (join "\n" (l ∷ ls))),
  length-of_list (lines_from [] (chars (join "\n" (l ∷ ls)))),
  breaks-join (l ∷ ls) a,
)
