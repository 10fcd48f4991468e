-- ===== src/Deb/Fuel.antt =====
-- internal/deb/reader.go: the loop of `ReadPackage` ends.
use deb_s.Prelude.{
  ℕ, zero, suc, ◌+◌, ◌<◌, ◌≤◌, ◌≡◌, refl, arith, leb, Option, some, Text, length, length-drop,
  Error, Result, ok, err, Result-cases, Bool-cases, inl, inr, Exec, ◌>>=◌,
}
use deb_s.Digest.{Codec}
use deb_s.Deb.{
  PackageInfo, Progress, at_first, members, member_read, member_taken, take_member, inspected,
  read_package,
}
use deb_s.Deb.Ar.{
  Archive, Member, new_archive, next, read_header, header_error, read_full, parse_header,
}
use deb_s.Deb.Control.{Tools, ReaderOptions, with_defaults}
use deb_s.Deb.Whole.{
  Keeps, stays-Keeps, bind-Keeps, start-Keeps, skip_member-Keeps, lift-Keeps, take_member-Keeps,
}

-- A call that reads a header when it succeeds.
record Shrinks {A : Type 0} (m : Exec Archive A) : Type 0 where
  shrinks : (a : Archive) (x : A) → (m a).0 ≡ ok x → length (m a).1.rest + 60 ≤ length a.rest

module _ {A B : Type 0} (m : Exec Archive A) (f : A → Exec Archive B) where
  bind-Shrinks : Keeps m → ((x : A) → Shrinks (f x)) → Shrinks (m >>= f)
  unfolding ◌>>=◌
  bind-Shrinks hm hf = record {
    shrinks = λ a y. elim (Result-cases (m a).0) [
      | inl (x, e) ↦ rw e (λ h. omega (arith, (hf x).shrinks (m a).1 y h, hm.narrows a))
      | inr (x, e) ↦ rw e (λ h. cc)
    ];
  }

  bind_first-Shrinks : Shrinks m → ((x : A) → Keeps (f x)) → Shrinks (m >>= f)
  unfolding ◌>>=◌
  bind_first-Shrinks hm hf = record {
    shrinks = λ a y. elim (Result-cases (m a).0) [
      | inl (x, e) ↦ rw e (λ h. omega (arith, (hf x).narrows (m a).1, hm.shrinks a x e))
      | inr (x, e) ↦ rw e (λ h. cc)
    ];
  }

read_full_lem :
    (n : ℕ) (a : Archive) (t : Text)
    → (read_full n a).0 ≡ ok t
    → length (read_full n a).1.rest + n ≤ length a.rest
unfolding read_full
read_full_lem n a t = elim (Bool-cases (leb n (length a.rest))) [
  | inl e ↦ rw e (λ h. ground (arith, length-drop n a.rest))
  | inr e ↦ rw e (λ h. cc)
]

header_ok :
    (rest : Text) (x : Result Text × Archive) (n m : ℕ)
    → ((t : Text) → x.0 ≡ ok t → length x.1.rest + n ≤ m)
    → (t : Text) → (header_error rest x).0 ≡ ok t
    → length (header_error rest x).1.rest + n ≤ m
header_ok rest (ok header, a) n m h t same = h header refl
header_ok rest (err e, a) n m h t same = cc

read_header-Shrinks : Shrinks read_header
unfolding read_header
read_header-Shrinks = record {
  shrinks = λ a. header_ok a.rest (read_full 60 a) 60 (length a.rest) (read_full_lem 60 a);
}

next-Shrinks : Shrinks next
unfolding next
next-Shrinks = bind-Shrinks _ _ start-Keeps λ x. bind-Shrinks _ _ skip_member-Keeps λ y.
    bind_first-Shrinks _ _ read_header-Shrinks
      λ h. bind-Keeps _ _ (lift-Keeps (parse_header h)) λ member. stays-Keeps _ λ a. (refl, refl)

module _ (tools : Tools) (options : ReaderOptions) where
  -- A loop that returns when it starts with fewer than `n` bytes.
  abbrev Returns : ℕ → (Progress → Archive → Option (Result Progress × Archive)) → Type 0
  Returns n rest =
      (q : Progress) (b : Archive)
      → length b.rest < n
      → (x : Result Progress × Archive) × (rest q b ≡ some x)

  member_taken-Returns :
      (n : ℕ) (x : Result Progress × Archive)
      (rest : Progress → Archive → Option (Result Progress × Archive))
      → length x.1.rest < n
      → Returns n rest
      → (y : Result Progress × Archive) × (member_taken tools options x rest ≡ some y)
  member_taken-Returns n (ok q, b) rest small returns = returns q b small
  member_taken-Returns n (err e, b) rest small returns = ((err e, b), refl)

  member_read-Returns :
      (n : ℕ) (p : Progress) (x : Result Member × Archive)
      (rest : Progress → Archive → Option (Result Progress × Archive))
      → ((member : Member) → x.0 ≡ ok member → length x.1.rest < n)
      → Returns n rest
      → (y : Result Progress × Archive) × (member_read tools options p x rest ≡ some y)
  member_read-Returns n p (ok member, b) rest small returns =
      member_taken-Returns n (take_member tools options p member b) rest
        (omega (arith, (take_member-Keeps tools options p member).narrows b, small member refl))
        returns
  member_read-Returns n p (err e, b) rest small returns = (_, refl)

  members-Returns : (fuel : ℕ) → Returns fuel (members tools options fuel)
  unfolding members
  members-Returns zero p a small = absurd (omega arith)
  members-Returns (suc fuel) p a small =
      member_read-Returns fuel p (next a) (members tools options fuel)
        (λ member h. omega (arith, next-Shrinks.shrinks a member h, small)) (members-Returns fuel)

-- ReadPackage returns a package or an error within one round of its loop for each byte of the
-- input and one more, whatever the input.
pub read_package-IsSome :
    (fuel : ℕ) (tools : Tools) (c : Codec) (maintainer : Text) (options : ReaderOptions)
    (input : Text) (stop : Option Error)
    → length input < fuel
    → (r : Result PackageInfo) × (read_package fuel tools c maintainer options input stop ≡ some r)
unfolding read_package
read_package-IsSome fuel tools c maintainer options input stop enough =
    let (x, h) =
      members-Returns tools (with_defaults options) fuel at_first (new_archive input stop) enough in
    (inspected c maintainer x, rw h refl)
