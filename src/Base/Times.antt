-- ===== src/Base/Times.antt =====
-- time.Time, time.Duration and int.
-- An instant is a number of nanoseconds since an instant before every one that the program meets;
-- `zero_time` is January 1 of year 1, the zero value of time.Time. A duration that the program
-- subtracts is under 292 years, so on instants after the zero time `-` does not stop at 0.
-- `UTC()` changes the location that an instant is shown in and not the instant.
use Prim.Native.Nat.{ℕ}
use mathlib.Core.Bool.{Bool}
use semantic_intelligence_la.Base.Bools.{ltb, ◌==◌}

abbrev pub Time : Type 0
Time = ℕ

abbrev pub Duration : Type 0
Duration = ℕ

abbrev pub zero_time : Time
zero_time = 10_000_000_000_000_000_000

abbrev pub is_zero : Time → Bool
is_zero t = t == zero_time

abbrev pub before : Time → Time → Bool
before a b = ltb a b

abbrev pub after : Time → Time → Bool
after a b = ltb b a

abbrev pub second : Duration
second = 1_000_000_000

-- Go's int; `negsuc n` is -(n + 1)
pub data ℤ : Type 0 where
  pos : ℕ → ℤ
  negsuc : ℕ → ℤ
