-- ===== src/Prelude/Pairs.antt =====
-- A relation between each element of a list and all that come after it.
use mathlib.Core.Bool.{Bool}
use mathlib.Core.List.{List, [], ◌∷◌, ◌++◌}
use deb_s.Prelude.Tests.{Bool-cases}
use mathlib.Core.Logic.{inl, inr}
use deb_s.Prelude.Lists.{keep, All, All-append, All-keep}

module _ {ℓ} {A : Type ℓ} where
  abbrev pub Pairwise : (A → A → Type 0) → List A → Type 0
  Pairwise R [] = Unit
  Pairwise R (x ∷ xs) = All (R x) xs × Pairwise R xs

  pub keep-Pairwise :
      (R : A → A → Type 0) (t : A → Bool) (xs : List A) → Pairwise R xs → Pairwise R (keep t xs)
  unfolding keep
  keep-Pairwise R t [] u = tt
  keep-Pairwise R t (x ∷ xs) u =
      let rest = keep-Pairwise R t xs u.1 in
      elim (Bool-cases (t x)) [ inl e ↦ rw e (All-keep (R x) t xs u.0, rest) | inr e ↦ rw e rest ]

  pub append-Pairwise :
      (R : A → A → Type 0) (new : A) (xs : List A)
      → All (λ x. R x new) xs
      → Pairwise R xs
      → Pairwise R (xs ++ new ∷ [])
  append-Pairwise R new [] h u = (tt, tt)
  append-Pairwise R new (x ∷ xs) h u =
      (All-append (R x) xs (new ∷ []) u.0 (h.0, tt), append-Pairwise R new xs h.1 u.1)
