-- ===== src/Deb/Ends.antt =====
-- internal/deb/ar.go: `Next` answers `io.EOF` only at the end of the stream.
use deb_s.Prelude.{
  failed, bad_size, bad_trailer, empty_name, extended_name, incorrect_magic, Reason, missing_magic,
  truncated_member, truncated_padding, ℕ, ◌≡◌, refl, Bool, true, false, not, ◌||◌, Option, none,
  some, [], ◌==◌, ◌%◌, leb, if◌then◌else◌, Text, codes, has_prefix, equal, length, take, drop,
  drop-all, Error, Result, ok, err, Result-cases, Bool-cases, inl, inr, Exec, lift, ◌>>=◌,
}
use deb_s.Deb.Ar.{
  Archive, ar_magic, check_magic, read_magic, discard_body, read_padding, header_error,
  parse_header, name_in, size_in, sized, begin_member, format_read_error, reading, read_full,
  discard, start, skip_member, read_header, next, is_end, is_unexpected_end,
}

-- Where the call fails with `io.EOF`, the stream is at its end.
pub record EndsAtRest {A : Type 0} (m : Exec Archive A) : Type 0 where
  pub at_end : (a : Archive) (e : Error) → (m a).0 ≡ err e → is_end e ≡ true → (m a).1.rest ≡ []

-- The call does not fail with `io.EOF`.
record NeverEnds {A : Type 0} (m : Exec Archive A) : Type 0 where
  never : (a : Archive) (e : Error) → (m a).0 ≡ err e → is_end e ≡ false

module _ {A : Type 0} where
  EndsAtRest-never : (m : Exec Archive A) → NeverEnds m → EndsAtRest m
  EndsAtRest-never m h = record { at_end = λ a e failed end. let f = h.never a e failed in cc }

module _ {A B : Type 0} where
  bind-EndsAtRest :
      (m : Exec Archive A) (f : A → Exec Archive B)
      → EndsAtRest m
      → ((x : A) → EndsAtRest (f x))
      → EndsAtRest (m >>= f)
  unfolding ◌>>=◌
  bind-EndsAtRest m f hm hf = record {
    at_end = λ a e. elim (Result-cases (m a).0) [
      | inl (x, h) ↦ rw h ((hf x).at_end (m a).1 e)
      | inr (x, h) ↦ rw h (λ same end. hm.at_end a x h cc)
    ];
  }

  bind-NeverEnds :
      (m : Exec Archive A) (f : A → Exec Archive B)
      → NeverEnds m
      → ((x : A) → NeverEnds (f x))
      → NeverEnds (m >>= f)
  unfolding ◌>>=◌
  bind-NeverEnds m f hm hf = record {
    never = λ a e. elim (Result-cases (m a).0) [
      | inl (x, h) ↦ rw h ((hf x).never (m a).1 e)
      | inr (x, h) ↦ rw h (λ same. let g = hm.never a x h in cc)
    ];
  }

format_read_error-never :
    (x : Error) (reason : Reason)
    → is_end (failed reason) ≡ false
    → is_end (format_read_error x reason) ≡ false
format_read_error-never x reason h = elim (Bool-cases (is_end x)) [
  | inl e ↦ rw e h
  | inr e ↦ rw e (elim (Bool-cases (is_unexpected_end x)) [ inl f ↦ rw f h | inr f ↦ rw f e ])
]

-- A result that is not `io.EOF`.
abbrev Plain : {A : Type 0} → Result A → Type 0
Plain r = (e : Error) → r ≡ err e → is_end e ≡ false

module _ {A : Type 0} where
  choose-Plain : (b : Bool) (r s : Result A) → Plain r → Plain s → Plain (if b then r else s)
  choose-Plain true r s hr hs = hr
  choose-Plain false r s hr hs = hs

  failed-Plain :
      (reason : Reason) → is_end (failed reason) ≡ false → Plain {A = A} (err (failed reason))
  failed-Plain reason h e same = cc

module _ {A : Type 0} where
  done-NeverEnds : (f : Archive → A) (g : Archive → Archive) → NeverEnds (λ a. (ok (f a), g a))
  done-NeverEnds f g = record { never = λ a e same. cc }

  if-NeverEnds :
      (b : Archive → Bool) (m n : Exec Archive A)
      → NeverEnds m
      → NeverEnds n
      → NeverEnds (λ a. if b a then m a else n a)
  if-NeverEnds b m n hm hn = record {
    never = λ a e. elim (Bool-cases (b a)) [
      | inl h ↦ rw h (hm.never a e)
      | inr h ↦ rw h (hn.never a e)
    ];
  }

  reading-NeverEnds :
      (reason : Reason) (m : Exec Archive A)
      → is_end (failed reason) ≡ false
      → NeverEnds (λ a. reading reason (m a))
  reading-NeverEnds reason m h = record { never = λ a. never_at (m a) }
    where
      never_at :
          (x : Result A × Archive) (e : Error) → (reading reason x).0 ≡ err e → is_end e ≡ false
      never_at (ok x, a) e same = cc
      never_at (err x, a) e same = let g = format_read_error-never x reason h in cc

start-NeverEnds : NeverEnds start
unfolding start
start-NeverEnds =
    if-NeverEnds (λ a. a.started) _ _ (done-NeverEnds (λ a. tt) (λ a. a))
      (bind-NeverEnds read_magic check_magic (reading-NeverEnds missing_magic (read_full 8) refl)
        λ magic. record {
          never = λ a e. elim (Bool-cases (equal magic ar_magic)) [
            | inl h ↦ rw h (λ same. cc)
            | inr h ↦ rw h (failed-Plain {A = Unit {0}} incorrect_magic refl e)
          ];
        })

skip_member-NeverEnds : NeverEnds skip_member
unfolding skip_member
skip_member-NeverEnds =
    bind-NeverEnds discard_body _
      (if-NeverEnds (λ a. a.remaining == 0) _ _ (done-NeverEnds (λ a. tt) (λ a. a))
        (reading-NeverEnds truncated_member (λ a. discard a.remaining a) refl))
      λ x.
        bind-NeverEnds read_padding _
          (if-NeverEnds (λ a. a.padding == 0) _ _ (done-NeverEnds (λ a. []) (λ a. a))
            (reading-NeverEnds truncated_padding (λ a. read_full a.padding a) refl))
          λ y. done-NeverEnds (λ a. tt) (λ a. record a { remaining = 0; padding = 0 })

sized-Plain : (name : Text) (size : Option ℕ) → Plain (sized name size)
sized-Plain name none = failed-Plain bad_size refl
sized-Plain name (some size) = λ e same. cc

parse_header-Plain : (header : Text) → Plain (parse_header header)
unfolding parse_header
parse_header-Plain header =
    choose-Plain (not (equal (take 2 (drop 58 header)) (codes "`\n"))) _ _
      (failed-Plain bad_trailer refl)
      (choose-Plain (equal (name_in header) []) _ _ (failed-Plain empty_name refl) (
        choose-Plain
          (equal (name_in header) (codes "/")
            || equal (name_in header) (codes "//")
            || has_prefix (name_in header) (codes "#1/"))
          _ _ (failed-Plain extended_name refl) (sized-Plain (name_in header) (size_in header))))

read_full-short :
    (n : ℕ) (a : Archive) (e : Error) → (read_full n a).0 ≡ err e → (read_full n a).1.rest ≡ []
unfolding read_full
read_full-short n a e = elim (Bool-cases (leb n (length a.rest))) [
  | inl h ↦ rw h (λ same. cc)
  | inr h ↦ rw h (λ same. drop-all a.rest)
]

header-ends :
    (rest : Text) (x : Result Text × Archive)
    → ((e : Error) → x.0 ≡ err e → x.1.rest ≡ [])
    → (e : Error) → (header_error rest x).0 ≡ err e
    → (header_error rest x).1.rest ≡ []
header-ends rest (ok header, a) short e same = cc
header-ends rest (err y, a) short e same = short y refl

read_header-EndsAtRest : EndsAtRest read_header
unfolding read_header
read_header-EndsAtRest = record {
  at_end = λ a e same end. header-ends a.rest (read_full 60 a) (read_full-short 60 a) e same;
}

pub next-EndsAtRest : EndsAtRest next
unfolding next
next-EndsAtRest = bind-EndsAtRest _ _ (EndsAtRest-never _ start-NeverEnds) λ x.
    bind-EndsAtRest _ _ (EndsAtRest-never _ skip_member-NeverEnds) λ y.
      bind-EndsAtRest _ _ read_header-EndsAtRest λ h. EndsAtRest-never _ (
        bind-NeverEnds (lift (parse_header h)) begin_member
          (record { never = λ a e. parse_header-Plain h e })
          λ m. done-NeverEnds (λ a. m) (λ a. record a { remaining = m.size; padding = m.size % 2 }))
