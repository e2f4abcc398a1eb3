-- ===== src/Base/Time.antt =====
-- Spans of time: a time stamp is a number of nanoseconds, and a span is counted in whole units.
use Prim.Native.Nat.{ℕ, zero, suc, ◌-◌, ◌/◌}
use mathlib.Core.Bool.{Bool, true, false}
use memix.Base.Tests.{leb, ltb, if◌then◌else◌}

pub data ℤ : Type 0 where
  pos : ℕ → ℤ
  negsuc : ℕ → ℤ

abbrev pub negative : ℕ → ℤ
negative zero = pos 0
negative (suc n) = negsuc n

-- `num_seconds` and `num_hours` drop the fraction.
abbrev pub whole_units : (unit start end : ℕ) → ℤ
whole_units unit start end =
    if leb start end then pos ((end - start) / unit) else negative ((start - end) / unit)

abbrev pub exceeds : ℤ → ℤ → Bool
exceeds (pos a) (pos b) = ltb b a
exceeds (pos a) (negsuc b) = true
exceeds (negsuc a) (pos b) = false
exceeds (negsuc a) (negsuc b) = ltb a b
