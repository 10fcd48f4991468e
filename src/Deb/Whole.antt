-- ===== src/Deb/Whole.antt =====
-- internal/deb/reader.go: `ReadPackage` reads its input to the end.
use deb_s.Prelude.{
  ◌≤◌, failed, large_debian_binary, not_debian_binary, unexpected_member, ℕ, ◌≡◌, refl, ap, ◌∙◌,
  arith, Bool, true, false, not, ◌++◌, ◌==◌, leb, ltb, if◌then◌else◌, Text, codes, has_prefix,
  equal, length, length-drop, Reason, missing_magic, truncated_member, truncated_padding, take,
  drop, take-drop, append_assoc, Error, Result, ok, err, Result-cases, Bool-cases, inl, inr, Exec,
  lift, raise, ◌>>=◌,
}
use deb_s.Deb.{
  Progress, Stage, first, control_next, data_next, trailing, take_member, at_stage, truncated,
  read_version, check_version, validate_debian_binary,
}
use deb_s.Deb.Ar.{
  Archive, Member, ar_magic, check_magic, read_magic, discard_body, read_padding, header_error,
  parse_header, advance, reading, read_full, discard, start, skip_member, read_header, next,
  read_body,
}
use deb_s.Deb.Control.{Tools, ReaderOptions, read_control_archive}

-- What was read and what is left.
abbrev pub whole : Archive → Text
whole a = a.taken ++ a.rest

pub record Keeps {A : Type 0} (m : Exec Archive A) : Type 0 where
  pub keeps : (a : Archive) → whole (m a).1 ≡ whole a
  pub narrows : (a : Archive) → length (m a).1.rest ≤ length a.rest

-- A call that reads nothing.
pub stays-Keeps :
    {A : Type 0} (m : Exec Archive A)
    → ((a : Archive) → ((m a).1.taken ≡ a.taken) × ((m a).1.rest ≡ a.rest))
    → Keeps m
stays-Keeps m h = record {
  keeps = λ a. let (t, u) = h a in cc;
  narrows = λ a. let (t, u) = h a in omega (arith, ap length u);
}

advance_narrows : (n : ℕ) (a : Archive) → length (advance n a).rest ≤ length a.rest
advance_narrows n a = omega (arith, length-drop n a.rest)

pub advance-whole : (n : ℕ) (a : Archive) → whole (advance n a) ≡ whole a
advance-whole n a =
    append_assoc a.taken (take n a.rest) (drop n a.rest)
    ∙ ap (λ t. a.taken ++ t) (take-drop n a.rest)

module _ {A B : Type 0} where
  pub bind-Keeps :
      (m : Exec Archive A) (f : A → Exec Archive B)
      → Keeps m
      → ((x : A) → Keeps (f x))
      → Keeps (m >>= f)
  unfolding ◌>>=◌
  bind-Keeps m f hm hf = record {
    keeps = λ a. elim (Result-cases (m a).0) [
      | inl (x, e) ↦ rw e ((hf x).keeps (m a).1 ∙ hm.keeps a)
      | inr (x, e) ↦ rw e (hm.keeps a)
    ];
    narrows = λ a. elim (Result-cases (m a).0) [
      | inl (x, e) ↦ rw e (omega (arith, (hf x).narrows (m a).1, hm.narrows a))
      | inr (x, e) ↦ rw e (hm.narrows a)
    ];
  }

module _ {A : Type 0} where
  pub if-Keeps :
      (b : Archive → Bool) (m n : Exec Archive A)
      → Keeps m
      → Keeps n
      → Keeps (λ a. if b a then m a else n a)
  if-Keeps b m n hm hn = record {
    keeps = λ a. elim (Bool-cases (b a)) [ inl e ↦ rw e (hm.keeps a) | inr e ↦ rw e (hn.keeps a) ];
    narrows =
        λ a. elim (Bool-cases (b a)) [ inl e ↦ rw e (hm.narrows a) | inr e ↦ rw e (hn.narrows a) ];
  }

  choose-Keeps : (b : Bool) (m n : Exec Archive A) → Keeps m → Keeps n → Keeps (if b then m else n)
  choose-Keeps true m n hm hn = hm
  choose-Keeps false m n hm hn = hn

  -- Only the result is another one.
  same_place-Keeps :
      (m n : Exec Archive A) → Keeps m → ((a : Archive) → (n a).1 ≡ (m a).1) → Keeps n
  same_place-Keeps m n hm same = record {
    keeps = λ a. ap whole (same a) ∙ hm.keeps a;
    narrows = λ a. rw (same a) (hm.narrows a);
  }

  reading-Keeps :
      (reason : Reason) (m : Exec Archive A) → Keeps m → Keeps (λ a. reading reason (m a))
  reading-Keeps reason m hm = same_place-Keeps m _ hm (λ a. same (m a))
    where
      same : (x : Result A × Archive) → (reading reason x).1 ≡ x.1
      same (ok x, a) = refl
      same (err e, a) = refl

read_full-Keeps : (n : ℕ) → Keeps (read_full n)
unfolding read_full
read_full-Keeps n =
    if-Keeps (λ a. leb n (length a.rest)) _ _
      (record { keeps = λ a. advance-whole n a; narrows = λ a. advance_narrows n a })
      (record {
        keeps = λ a. advance-whole (length a.rest) a;
        narrows = λ a. advance_narrows (length a.rest) a;
      })

discard-Keeps : (n : ℕ) → Keeps (discard n)
unfolding discard
discard-Keeps n =
    if-Keeps (λ a. leb n (length a.rest)) _ _
      (record { keeps = λ a. advance-whole n a; narrows = λ a. advance_narrows n a })
      (record {
        keeps = λ a. advance-whole (length a.rest) a;
        narrows = λ a. advance_narrows (length a.rest) a;
      })

magic-Keeps : (magic : Text) → Keeps (check_magic magic)
magic-Keeps magic =
    if-Keeps (λ a. equal magic ar_magic) _ _ (stays-Keeps _ λ a. (refl, refl))
      (stays-Keeps _ λ a. (refl, refl))

pub start-Keeps : Keeps start
unfolding start
start-Keeps =
    if-Keeps (λ a. a.started) _ _ (stays-Keeps _ λ a. (refl, refl))
      (bind-Keeps read_magic check_magic (reading-Keeps missing_magic _ (read_full-Keeps 8))
        magic-Keeps)

discard_body-Keeps : Keeps discard_body
discard_body-Keeps =
    if-Keeps (λ a. a.remaining == 0) _ _ (stays-Keeps _ λ a. (refl, refl))
      (reading-Keeps truncated_member (λ a. discard a.remaining a)
        (record {
          keeps = λ a. (discard-Keeps a.remaining).keeps a;
          narrows = λ a. (discard-Keeps a.remaining).narrows a;
        }))

read_padding-Keeps : Keeps read_padding
read_padding-Keeps =
    if-Keeps (λ a. a.padding == 0) _ _ (stays-Keeps _ λ a. (refl, refl))
      (reading-Keeps truncated_padding (λ a. read_full a.padding a)
        (record {
          keeps = λ a. (read_full-Keeps a.padding).keeps a;
          narrows = λ a. (read_full-Keeps a.padding).narrows a;
        }))

pub skip_member-Keeps : Keeps skip_member
unfolding skip_member
skip_member-Keeps =
    bind-Keeps _ _ discard_body-Keeps
      λ x. bind-Keeps _ _ read_padding-Keeps λ y. stays-Keeps _ λ a. (refl, refl)

header_error_lem : (rest : Text) (x : Result Text × Archive) → (header_error rest x).1 ≡ x.1
header_error_lem rest (ok header, a) = refl
header_error_lem rest (err e, a) = refl

pub read_header-Keeps : Keeps read_header
unfolding read_header
read_header-Keeps =
    same_place-Keeps (read_full 60) _ (read_full-Keeps 60)
      λ a. header_error_lem a.rest (read_full 60 a)

pub lift-Keeps : {A : Type 0} (r : Result A) → Keeps (lift r)
lift-Keeps r = stays-Keeps _ λ a. (refl, refl)

pub next-Keeps : Keeps next
unfolding next
next-Keeps = bind-Keeps _ _ start-Keeps λ x. bind-Keeps _ _ skip_member-Keeps λ y.
    bind-Keeps _ _ read_header-Keeps
      λ h. bind-Keeps _ _ (lift-Keeps (parse_header h)) λ member. stays-Keeps _ λ a. (refl, refl)

read_body-Keeps : Keeps read_body
unfolding read_body
read_body-Keeps =
    if-Keeps (λ a. leb a.remaining (length a.rest)) _ _
      (record {
        keeps = λ a. advance-whole a.remaining a;
        narrows = λ a. advance_narrows a.remaining a;
      })
      (record {
        keeps = λ a. advance-whole (length a.rest) a;
        narrows = λ a. advance_narrows (length a.rest) a;
      })

truncated_lem : (x : Result Text × Archive) → (truncated x).1 ≡ x.1
truncated_lem (ok value, a) = refl
truncated_lem (err e, a) = refl

raise-Keeps : {A : Type 0} (e : Error) → Keeps (raise {A = A} e)
raise-Keeps e = stays-Keeps _ λ a. (refl, refl)

version-Keeps : (member : Member) → Keeps (validate_debian_binary member)
unfolding validate_debian_binary
version-Keeps member =
    choose-Keeps (ltb 32 member.size) _ _ (raise-Keeps (failed large_debian_binary)) (
      bind-Keeps read_version (λ value. lift (check_version value))
        (same_place-Keeps read_body _ read_body-Keeps λ a. truncated_lem (read_body a))
        λ value. lift-Keeps (check_version value))

read_control-Keeps :
    (tools : Tools) (options : ReaderOptions) (member : Member)
    → Keeps (read_control_archive tools options member)
unfolding read_control_archive
read_control-Keeps tools options member = record {
  keeps = λ a. advance-whole _ a;
  narrows = λ a. advance_narrows _ a;
}

pub take_member-Keeps :
    (tools : Tools) (options : ReaderOptions) (p : Progress) (member : Member)
    → Keeps (take_member tools options p member)
unfolding take_member
take_member-Keeps tools options p member = at_any p.stage
  where
    at_any : (stage : Stage) → Keeps (at_stage tools options stage p member)
    at_any first =
        choose-Keeps (not (equal member.name (codes "debian-binary"))) _ _
          (raise-Keeps (failed not_debian_binary))
          (bind-Keeps _ _ (version-Keeps member) λ x. stays-Keeps _ λ a. (refl, refl))
    at_any control_next =
        choose-Keeps (has_prefix member.name (codes "_")) _ _ (stays-Keeps _ λ a. (refl, refl)) (
          choose-Keeps (not (has_prefix member.name (codes "control.tar"))) _ _
            (raise-Keeps (failed unexpected_member))
            (bind-Keeps _ _ (read_control-Keeps tools options member)
              λ x. stays-Keeps _ λ a. (refl, refl)))
    at_any data_next =
        choose-Keeps (has_prefix member.name (codes "_")) _ _ (stays-Keeps _ λ a. (refl, refl)) (
          choose-Keeps (not (has_prefix member.name (codes "data.tar"))) _ _
            (raise-Keeps (failed unexpected_member)) (stays-Keeps _ λ a. (refl, refl)))
    at_any trailing = stays-Keeps _ λ a. (refl, refl)
