-- ===== src/Prelude/Ints.antt =====
-- Signed integers: `negsuc n` is -(n + 1).
use mathlib.Core.Bool.{Bool, true, false}
use Prim.Native.Nat.{ℕ, ◌+◌, ◌-◌, ◌*◌, ◌^◌}
use deb_s.Prelude.Tests.{ltb, leb, if◌then◌else◌}

pub data ℤ : Type 0 where
  pos : ℕ → ℤ
  negsuc : ℕ → ℤ

-- `a < b`
abbrev pub lt_int : ℤ → ℤ → Bool
lt_int (pos a) (pos b) = ltb a b
lt_int (pos a) (negsuc b) = false
lt_int (negsuc a) (pos b) = true
lt_int (negsuc a) (negsuc b) = ltb b a

-- `a *= 2` on an `int64`, which wraps around.
abbrev pub double : ℤ → ℤ
double (pos n) = if ltb (n * 2) (2 ^ 63) then pos (n * 2) else negsuc (2 ^ 64 - n * 2 - 1)
double (negsuc n) =
    if leb (n * 2 + 2) (2 ^ 63) then negsuc (n * 2 + 1) else pos (2 ^ 64 - n * 2 - 2)
