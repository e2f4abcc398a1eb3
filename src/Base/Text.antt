-- ===== src/Base/Text.antt =====
-- How the standard library prints an unsigned number, and the concatenation of texts.
use Prim.Native.Nat.{ℕ, zero, suc, ◌/◌, ◌%◌}
use Prim.Native.String.{String, ◌++◌}
use memix.Base.Tests.{ltb, nat_beq, if◌then◌else◌}

abbrev pub concat : String → String → String
concat s t = s ++ t

digit : ℕ → String
digit d =
    if nat_beq d 0
    then "0"
    else if nat_beq d 1
    then "1"
    else if nat_beq d 2
    then "2"
    else if nat_beq d 3
    then "3"
    else if nat_beq d 4
    then "4"
    else if nat_beq d 5
    then "5"
    else if nat_beq d 6
    then "6"
    else if nat_beq d 7
    then "7"
    else if nat_beq d 8
    then "8"
    else "9"

-- A number has fewer digits than its value and one more.
show_digits : ℕ → ℕ → String
unfolding digit
show_digits zero n = digit n
show_digits (suc fuel) n =
    let front = show_digits fuel (n / 10) in
    if ltb n 10 then digit n else concat front (digit (n % 10))

unfoldable pub show : ℕ → String
unfolding show_digits
show n = show_digits n n
