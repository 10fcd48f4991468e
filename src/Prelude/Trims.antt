-- ===== src/Prelude/Trims.antt =====
-- `strings.TrimFunc` on texts without the bytes that it takes off.
use mathlib.Core.Path.{◌≡◌, refl, ap, ◌∙◌}
use mathlib.Core.Bool.{Bool, true, false}
use mathlib.Core.List.{[], ◌∷◌, ◌++◌, reverse, reverse-append, reverse-cons, reverse-reverse}
use Prim.Native.Nat.{ℕ}
use deb_s.Prelude.Lists.{All, All-append}
use deb_s.Prelude.Texts.{Text, trim, trim_left}

module _ (f : ℕ → Bool) where
  abbrev pub HasNone : Text → Type 0
  HasNone t = All (λ c. f c ≡ false) t

  trim_left-none : (t : Text) → HasNone t → trim_left f t ≡ t
  unfolding trim_left
  trim_left-none [] h = refl
  trim_left-none (c ∷ cs) h = rw (h.0) refl

  HasNone-reverse : (t : Text) → HasNone t → HasNone (reverse t)
  HasNone-reverse [] h = tt
  HasNone-reverse (c ∷ cs) h =
      rw (reverse-cons c cs)
        (All-append (λ d. f d ≡ false) (reverse cs) (c ∷ []) (HasNone-reverse cs h.1) (h.0, tt))

  pub trim-none : (t : Text) → HasNone t → trim f t ≡ t
  unfolding trim
  trim-none t h =
      rw (trim_left-none t h)
        (rw (trim_left-none (reverse t) (HasNone-reverse t h)) (reverse-reverse t))

  trim_left-taken : (q : ℕ) (t : Text) → f q ≡ true → trim_left f (q ∷ t) ≡ trim_left f t
  unfolding trim_left
  trim_left-taken q t taken = rw taken refl

  trim_left-kept : (c : ℕ) (t : Text) → f c ≡ false → trim_left f (c ∷ t) ≡ c ∷ t
  unfolding trim_left
  trim_left-kept c t kept = rw kept refl

  -- One byte that is taken off, in front and behind.
  pub trim-around : (q : ℕ) (t : Text) → f q ≡ true → HasNone t → trim f (q ∷ (t ++ q ∷ [])) ≡ t
  unfolding trim trim_left
  trim-around q [] taken h = rw taken refl
  trim-around q (c ∷ cs) taken h =
      ap (λ y. reverse (trim_left f (reverse y)))
        (trim_left-taken q (c ∷ (cs ++ q ∷ [])) taken ∙ trim_left-kept c (cs ++ q ∷ []) h.0)
      ∙ ap (λ y. reverse (trim_left f y)) (reverse-append (c ∷ cs) (q ∷ []))
      ∙ ap reverse (
          trim_left-taken q (reverse (c ∷ cs)) taken
          ∙ trim_left-none (reverse (c ∷ cs)) (HasNone-reverse (c ∷ cs) h))
      ∙ reverse-reverse (c ∷ cs)
