-- ===== src/Prelude/Numbers.antt =====
-- Decimal numbers of `strconv`. A 64-bit signed integer is its bit pattern, a number below 2^64.
use mathlib.Core.Bool.{Bool, true, false, ◌&&◌}
use mathlib.Core.Option.{Option, none, some}
use mathlib.Core.List.{[], ◌∷◌}
use Prim.Native.Nat.{ℕ, zero, suc, ◌+◌, ◌-◌, ◌*◌, ◌/◌, ◌%◌, ◌^◌}
use deb_s.Prelude.Tests.{◌==◌, ltb, leb, if◌then◌else◌}
use deb_s.Prelude.Texts.{Text}

abbrev pub is_digit : ℕ → Bool
is_digit c = leb b'0' c && leb c b'9'

-- The value of a row of digits behind those read so far.
unfoldable pub digits_value : ℕ → Text → Option ℕ
digits_value n [] = some n
digits_value n (c ∷ cs) =
    let rest = digits_value (n * 10 + (c - b'0')) cs in if is_digit c then rest else none

-- The decimal digits of a number in front of those already there; the number itself is fuel
-- enough, since each round divides it by ten.
unfoldable pub decimal_onto : ℕ → ℕ → Text → Text
decimal_onto zero n out = out
decimal_onto (suc fuel) n out =
    let out' = (b'0' + n % 10) ∷ out in
    let rest = decimal_onto fuel (n / 10) out' in if ltb n 10 then out' else rest

-- `strconv.FormatInt(n, 10)` of a number that is not negative.
unfoldable pub decimal : ℕ → Text
unfolding decimal_onto
decimal n = decimal_onto (suc n) n []

abbrev pub sign_bit : ℕ
sign_bit = 2 ^ 63

abbrev pub int_mod : ℕ
int_mod = 2 ^ 64

-- `strconv.Itoa` of a bit pattern.
unfoldable pub itoa : ℕ → Text
unfolding decimal
itoa w = if ltb w sign_bit then decimal w else b'-' ∷ decimal (int_mod - w)

-- What `strconv.ParseInt` makes of a text: no number, or a sign and a magnitude.
abbrev pub signed : Bool → Option ℕ → Option (Bool × ℕ)
signed negative none = none
signed negative (some n) = some (negative, n)

abbrev pub magnitude : Text → Option ℕ
magnitude [] = none
magnitude (c ∷ cs) = digits_value 0 (c ∷ cs)

unfoldable pub parse_signed : Text → Option (Bool × ℕ)
unfolding digits_value
parse_signed [] = none
parse_signed (c ∷ cs) =
    if c == b'-'
    then signed true (magnitude cs)
    else if c == b'+'
    then signed false (magnitude cs)
    else signed false (magnitude (c ∷ cs))

-- The bit pattern that `strconv.Atoi` returns beside its error: 0 for what is no number, and the
-- nearest integer for one that is out of range.
abbrev pub clamp_int : Option (Bool × ℕ) → ℕ
clamp_int none = 0
clamp_int (some (false, n)) = if ltb n sign_bit then n else sign_bit - 1
clamp_int (some (true, n)) = if n == 0 then 0 else if leb n sign_bit then int_mod - n else sign_bit

unfoldable pub atoi_value : Text → ℕ
unfolding parse_signed
atoi_value s = clamp_int (parse_signed s)

-- `strconv.ParseInt(s, 10, 64)` with a result that is not negative.
abbrev pub natural : Option (Bool × ℕ) → Option ℕ
natural none = none
natural (some (false, n)) = if ltb n sign_bit then some n else none
natural (some (true, n)) = if n == 0 then some 0 else none

unfoldable pub parse_size : Text → Option ℕ
unfolding parse_signed
parse_size s = natural (parse_signed s)
