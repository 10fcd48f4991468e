-- ===== src/Prelude/Members.antt =====
-- Membership in lists that are put together or filtered.
use Prim.Native.Nat.{◌+◌}
use mathlib.Core.Path.{◌≡◌, refl, sym, ap, ◌∙◌}
use mathlib.Core.Bool.{Bool, true, false, not, ◌&&◌, ◌||◌}
use mathlib.Core.Logic.{◌↔◌, ◌⊎◌, inl, inr}
use mathlib.Core.List.{List, [], ◌∷◌, ◌++◌}
use native.Mathlib.Omega.{arith}
use deb_s.Prelude.Tests.{if◌then◌else◌, Bool-cases}
use deb_s.Prelude.Lists.{length, keep, All, Has, here, there}

module _ {ℓ} {A : Type ℓ} where
  append-Has : (x : A) (xs ys : List A) → Has x xs ⊎ Has x ys → Has x (xs ++ ys)
  append-Has x [] ys (inl h) = elim h [ ]
  append-Has x [] ys (inr h) = h
  append-Has x (y ∷ xs) ys (inl (here e)) = here e
  append-Has x (y ∷ xs) ys (inl (there h)) = there (append-Has x xs ys (inl h))
  append-Has x (y ∷ xs) ys (inr h) = there (append-Has x xs ys (inr h))

  Has-under : (x y : A) (xs ys : List A) → Has x xs ⊎ Has x ys → Has x (y ∷ xs) ⊎ Has x ys
  Has-under x y xs ys (inl h) = inl (there h)
  Has-under x y xs ys (inr h) = inr h

  Has-of_append : (x : A) (xs ys : List A) → Has x (xs ++ ys) → Has x xs ⊎ Has x ys
  Has-of_append x [] ys h = inr h
  Has-of_append x (y ∷ xs) ys (here e) = inl (here e)
  Has-of_append x (y ∷ xs) ys (there h) = Has-under x y xs ys (Has-of_append x xs ys h)

  pub Has-append : (x : A) (xs ys : List A) → Has x (xs ++ ys) ↔ (Has x xs ⊎ Has x ys)
  Has-append x xs ys = (Has-of_append x xs ys, append-Has x xs ys)

  keep-Has : (p : A → Bool) (x : A) (xs : List A) → Has x xs → p x ≡ true → Has x (keep p xs)
  unfolding keep
  keep-Has p x [] h t = elim h [ ]
  keep-Has p x (y ∷ xs) (here e) t = rw (ap p (sym e) ∙ t) (here e)
  keep-Has p x (y ∷ xs) (there h) t =
      let rest = keep-Has p x xs h t in
      elim (Bool-cases (p y)) [ inl e ↦ rw e (there rest) | inr e ↦ rw e rest ]

  Has-of_if :
      (p : A → Bool) (x y : A) (xs rest : List A) (b : Bool)
      → p y ≡ b
      → (Has x rest → Has x xs × (p x ≡ true))
      → Has x (if b then y ∷ rest else rest)
      → Has x (y ∷ xs) × (p x ≡ true)
  Has-of_if p x y xs rest true e f (here q) = (here q, ap p q ∙ e)
  Has-of_if p x y xs rest true e f (there h) = (there (f h).0, (f h).1)
  Has-of_if p x y xs rest false e f h = (there (f h).0, (f h).1)

  Has-of_keep : (p : A → Bool) (x : A) (xs : List A) → Has x (keep p xs) → Has x xs × (p x ≡ true)
  unfolding keep
  Has-of_keep p x [] h = elim h [ ]
  Has-of_keep p x (y ∷ xs) h = Has-of_if p x y xs (keep p xs) (p y) refl (Has-of_keep p x xs) h

  pub Has-keep :
      (p : A → Bool) (x : A) (xs : List A) → Has x (keep p xs) ↔ (Has x xs × (p x ≡ true))
  Has-keep p x xs = (Has-of_keep p x xs, λ h. keep-Has p x xs h.0 h.1)

  pub length-keep-not :
      (p : A → Bool) (xs : List A)
      → length (keep p xs) + length (keep (λ x. not (p x)) xs) ≡ length xs
  unfolding keep
  length-keep-not p [] = refl
  length-keep-not p (x ∷ xs) = ground (arith, length-keep-not p xs)

  pub All-Has {κ} : (P : A → Type κ) (x : A) (xs : List A) → All P xs → Has x xs → P x
  All-Has P x [] h m = elim m [ ]
  All-Has P x (y ∷ xs) h (here e) = rw e h.0
  All-Has P x (y ∷ xs) h (there m) = All-Has P x xs h.1 m

pub and-true :
    (a b : Bool) (P Q : Type 0) → (a ≡ true) ↔ P → (b ≡ true) ↔ Q → ((a && b) ≡ true) ↔ (P × Q)
and-true true b P Q (f, g) (h, i) = ((λ e. (f refl, h e)), λ (x, y). i y)
and-true false b P Q (f, g) (h, i) = ((λ e. cc), λ (x, y). g x)

pub or_iff :
    (a b : Bool) (P Q : Type 0) → (a ≡ true) ↔ P → (b ≡ true) ↔ Q → ((a || b) ≡ true) ↔ (P ⊎ Q)
or_iff a b P Q (f, g) (h, i) = (forth a f, back)
  where
    forth : (x : Bool) → (x ≡ true → P) → (x || b) ≡ true → P ⊎ Q
    forth true k e = inl (k refl)
    forth false k e = inr (h e)

    back : P ⊎ Q → (a || b) ≡ true
    back (inl x) = rw (g x) refl
    back (inr y) = rw (i y) (ground arith)

-- Lists that are kept by a test, with the predicate that the test decides.
pub Has-keep_iff {ℓ} :
    {A : Type ℓ} (t : A → Bool) (q : A) (l : List A) (P : Type 0)
    → (t q ≡ true) ↔ P
    → Has q (keep t l) ↔ (Has q l × P)
Has-keep_iff t q l P (f, g) =
    ((λ h. let (k, e) = (Has-keep t q l).0 h in (k, f e)), λ (k, x). (Has-keep t q l).1 (k, g x))

not_iff : (b : Bool) (P : Type 0) → (b ≡ true) ↔ P → (not b ≡ true) ↔ (¬ P)
not_iff true P (f, g) = ((λ e. cc), λ n. absurd (n (f refl)))
not_iff false P (f, g) = ((λ e x. let k = g x in cc), λ n. refl)

pub Has-keep-not {ℓ} :
    {A : Type ℓ} (t : A → Bool) (q : A) (l : List A) (P : Type 0)
    → (t q ≡ true) ↔ P
    → Has q (keep (λ x. not (t x)) l) ↔ (Has q l × (¬ P))
Has-keep-not t q l P h = Has-keep_iff (λ x. not (t x)) q l (¬ P) (not_iff (t q) P h)

pub and-any : (a : Bool) (P : Type 0) → (a ≡ true) ↔ P → ((a && true) ≡ true) ↔ P
and-any true P h = h
and-any false P h = h
