-- ===== src/Lock/Delays.antt =====
-- internal/lock/lock.go: `retryDelay` as a bounded exponential.
use deb_s.Prelude.{
  ℕ, zero, suc, ◌*◌, ◌<◌, ◌≤◌, ◌≡◌, arith, ltb, ltb→lt, Bool-cases, inl, inr, pos, double,
  if◌then◌else◌, ◌∙◌, ap, sym,
}
use native.Mathlib.Nat.{suc-mul, le_trans, mul_assoc, mul-one}
use deb_s.Lock.Backoff.{grow, min_int, retry_delay}

-- 2 to that power.
unfoldable pub twofold : ℕ → ℕ
twofold zero = 1
twofold (suc n) = 2 * twofold n

twofold_positive : (n : ℕ) → 0 < twofold n
unfolding twofold
twofold_positive zero = omega arith
twofold_positive (suc n) = let h = twofold_positive n in omega arith

le-mul : (d n : ℕ) → d ≤ d * twofold n
le-mul zero n = omega arith
le-mul (suc d) n =
    let h = le-mul d n in let p = twofold_positive n in let e = suc-mul d (twofold n) in omega arith

abbrev pub smaller : ℕ → ℕ → ℕ
smaller a b = if ltb b a then b else a

twice : (d n : ℕ) → (d * 2) * twofold n ≡ d * (2 * twofold n)
twice d n = mul_assoc d 2 (twofold n)

min_int-pos : (a b : ℕ) → min_int (pos a) (pos b) ≡ pos (smaller a b)
min_int-pos a b = ground arith

double-pos : (d : ℕ) → d < 4611686018427387904 → double (pos d) ≡ pos (d * 2)
double-pos d h = ground arith

smaller_at_most : (a b m : ℕ) → m ≤ a → m ≤ b → smaller a m ≡ smaller b m
smaller_at_most a b m h k = ground arith

smaller-grow :
    (rounds d m : ℕ)
    → m < 4611686018427387904
    → min_int (grow rounds (pos d) (pos m)) (pos m) ≡ pos (smaller (d * twofold rounds) m)
unfolding grow twofold
smaller-grow zero d m h = min_int-pos d m ∙ ap (λ x. pos (smaller x m)) (sym (mul-one d))
smaller-grow (suc rounds) d m h = elim (Bool-cases (ltb d m)) [
  | inl e ↦
      rw (e, grow)
        (rw (double-pos d (let l = ltb→lt d m e in omega arith))
          (smaller-grow rounds (d * 2) m h ∙ ap (λ x. pos (smaller x m)) (twice d rounds)))
  | inr e ↦
      let l : m ≤ d = ground arith in
      let k : m ≤ d * twofold (suc rounds) = le_trans l (le-mul d (suc rounds)) in
      rw (e, grow) (min_int-pos d m ∙ ap pos (smaller_at_most d (d * twofold (suc rounds)) m l k))
]

-- For an initial delay and a maximum that are not negative, with the maximum below 2^62
-- nanoseconds, the delay after attempt n + 1 is the initial delay times 2^n, but at most the
-- maximum, without overflow.
pub retry_delay-pos :
    (initial maximum rounds : ℕ)
    → maximum < 4611686018427387904
    → retry_delay (pos initial) (pos maximum) (suc rounds)
      ≡ pos (smaller (initial * twofold rounds) maximum)
unfolding retry_delay
retry_delay-pos initial maximum rounds h = smaller-grow rounds initial maximum h
