-- ===== src/Deb/Written.antt =====
-- internal/deb: `ReadPackage` of a file as the format describes it.
use deb_s.Prelude.{
  ℕ, suc, ◌-◌, ◌%◌, ◌≤◌, ◌≡◌, refl, ap, ◌∙◌, subst, arith, min, true, false, leb, ltb, ◌==◌, Option,
  none, [], ◌∷◌, ◌++◌, append-nil, Text, codes, equal, has_prefix, length, length-append, take,
  drop, take-append, drop-append, Error, Result, ok, err, failed, end_of_file, and_then, continue,
  ◌>>=◌,
}
use deb_s.Deb.{
  Progress, take_member, check_version, validate_debian_binary, control_next, data_next, trailing,
  at_first,
}
use deb_s.Deb.Ar.{
  Archive, Member, ar_magic, new_archive, next, start, skip_member, discard_body, read_padding,
  read_header, parse_header, read_full, discard, read_body,
}
use deb_s.Deb.Control.{Tools, ReaderOptions, control_in, body_stream, read_control_archive, consume}

-- An archive behind its magic.
abbrev pub between : Text → Text → Option Error → ℕ → ℕ → Archive
between taken rest stop remaining padding = record {
  rest = rest;
  stop = stop;
  taken = taken;
  started = true;
  remaining = remaining;
  padding = padding;
}

fits : (xs ys : Text) → leb (length xs) (length (xs ++ ys)) ≡ true
fits xs ys = let h = length-append xs ys in ground arith

nonempty : (n : ℕ) → (suc n == 0) ≡ false
nonempty n = ground arith

module _ (t : Text) (stop : Option Error) where
  read_full-front :
      (xs ys : Text) (r q : ℕ)
      → read_full (length xs) (between t (xs ++ ys) stop r q)
        ≡ (ok xs, between (t ++ xs) ys stop r q)
  unfolding read_full
  read_full-front xs ys r q = rw (fits xs ys) (rw (take-append xs ys) (rw (drop-append xs ys) refl))

  discard-front :
      (xs ys : Text) (r q : ℕ)
      → discard (length xs) (between t (xs ++ ys) stop r q) ≡ (ok tt, between (t ++ xs) ys stop r q)
  unfolding discard
  discard-front xs ys r q = rw (fits xs ys) (rw (take-append xs ys) (rw (drop-append xs ys) refl))

  discard_body-front :
      (xs ys : Text) (q : ℕ)
      → discard_body (between t (xs ++ ys) stop (length xs) q)
        ≡ (ok tt, between (t ++ xs) ys stop (length xs) q)
  discard_body-front [] ys q = rw (append-nil t) refl
  discard_body-front (x ∷ xs) ys q =
      rw (nonempty (length xs)) (rw (discard-front (x ∷ xs) ys (length (x ∷ xs)) q) refl)

  read_padding-front :
      (xs ys : Text) (r : ℕ)
      → read_padding (between t (xs ++ ys) stop r (length xs))
        ≡ (ok xs, between (t ++ xs) ys stop r (length xs))
  read_padding-front [] ys r = rw (append-nil t) refl
  read_padding-front (x ∷ xs) ys r =
      rw (nonempty (length xs)) (rw (read_full-front (x ∷ xs) ys r (length (x ∷ xs))) refl)

  read_header-front :
      (h ys : Text)
      → length h ≡ 60
      → read_header (between t (h ++ ys) stop 0 0) ≡ (ok h, between (t ++ h) ys stop 0 0)
  unfolding read_header
  read_header-front h ys size =
      let front : read_full 60 (between t (h ++ ys) stop 0 0)
          ≡ (ok h, between (t ++ h) ys stop 0 0) =
        subst
          (λ n. read_full n (between t (h ++ ys) stop 0 0) ≡ (ok h, between (t ++ h) ys stop 0 0))
          size (read_full-front h ys 0 0) in
      rw front refl

skip_member-front :
    (t : Text) (stop : Option Error) (xs ys zs : Text)
    → skip_member (between t (xs ++ (ys ++ zs)) stop (length xs) (length ys))
      ≡ (ok tt, between ((t ++ xs) ++ ys) zs stop 0 0)
unfolding skip_member ◌>>=◌
skip_member-front t stop xs ys zs =
    rw (discard_body-front t stop xs (ys ++ zs) (length ys))
      (rw (read_padding-front (t ++ xs) stop ys zs (length xs)) refl)

pub next-front :
    (t : Text) (stop : Option Error) (xs ys h zs : Text) (m : Member)
    → length h ≡ 60
    → parse_header h ≡ ok m
    → next (between t (xs ++ (ys ++ (h ++ zs))) stop (length xs) (length ys))
      ≡ (ok m, between (((t ++ xs) ++ ys) ++ h) zs stop m.size (m.size % 2))
unfolding next start ◌>>=◌
next-front t stop xs ys h zs m size parsed =
    rw (skip_member-front t stop xs ys (h ++ zs))
      (rw (read_header-front ((t ++ xs) ++ ys) stop h zs size) (rw parsed refl))

pub next-end :
    (t xs ys : Text)
    → next (between t (xs ++ (ys ++ [])) none (length xs) (length ys))
      ≡ (err (failed end_of_file), between (((t ++ xs) ++ ys) ++ []) [] none 0 0)
unfolding next start read_header read_full equal ◌>>=◌
next-end t xs ys = rw (skip_member-front t none xs ys []) refl

start-front :
    (zs : Text) → start (new_archive (ar_magic ++ zs) none) ≡ (ok tt, between ar_magic zs none 0 0)
unfolding start read_full equal ◌>>=◌
start-front zs = rw (fits ar_magic zs) refl

pub next-first :
    (h zs : Text) (m : Member)
    → length h ≡ 60
    → parse_header h ≡ ok m
    → next (new_archive (ar_magic ++ (h ++ zs)) none)
      ≡ (ok m, between (ar_magic ++ h) zs none m.size (m.size % 2))
unfolding next skip_member ◌>>=◌
next-first h zs m size parsed =
    rw (start-front (h ++ zs)) (rw (read_header-front ar_magic none h zs size) (rw parsed refl))

continue_lem :
    {A B : Type 0} (f : A → B) (r : Result A) (a : Archive)
    → continue r (λ x b. (ok (f x), b)) a ≡ (and_then r (λ x. ok (f x)), a)
continue_lem f (ok x) a = refl
continue_lem f (err e) a = refl

module _ (tools : Tools) (options : ReaderOptions) (t zs : Text) (q : ℕ) where
  pub take_version :
      (body : Text)
      → length body ≤ 32
      → check_version body ≡ ok tt
      → take_member tools options at_first
          (record { name = codes "debian-binary"; size = length body })
          (between t (body ++ zs) none (length body) q)
        ≡ (
          ok (record at_first { seen_debian_binary = true; stage = control_next }),
          between (t ++ body) zs none 0 q,
        )
  unfolding take_member validate_debian_binary read_body equal ◌>>=◌
  take_version body small valid =
      let short : ltb 32 (length body) ≡ false = ground arith in
      rw short
        (rw (fits body zs) (rw (take-append body zs) (rw (drop-append body zs) (rw valid refl))))

  body_stream-front :
      (body : Text)
      → body_stream (between t (body ++ zs) none (length body) q)
        ≡ record { bytes = body; stop = none }
  unfolding body_stream
  body_stream-front body = rw (fits body zs) (rw (take-append body zs) refl)

  -- How much of the body the decompressor reads.
  abbrev pub used_of : Text → Text → ℕ
  used_of name body =
      min (tools.used name options (record { bytes = body; stop = none })) (length body)

  -- The control archive behind the body that is read.
  abbrev pub behind : Text → Text → Archive
  behind name body =
      between (t ++ take (used_of name body) (body ++ zs)) (drop (used_of name body) (body ++ zs))
        none (length body - used_of name body) q

  abbrev pub control_read : Text → Text → Result Text
  control_read name body =
      control_in tools options (record { name = name; size = length body })
        (record { bytes = body; stop = none })

  read_control-front :
      (name body : Text)
      → read_control_archive tools options
          (record { name = name; size = length body })
          (between t (body ++ zs) none (length body) q)
        ≡ (control_read name body, behind name body)
  unfolding read_control_archive
  read_control-front name body =
      let a = between t (body ++ zs) none (length body) q in
      ap
        (λ s. (
          control_in tools options (record { name = name; size = length body }) s,
          consume (min (tools.used name options s) (length s.bytes)) a,
        ))
        (body_stream-front body)

  pub take_control :
      (p : Progress) (name body : Text)
      → p.stage ≡ control_next
      → has_prefix name (codes "_") ≡ false
      → has_prefix name (codes "control.tar") ≡ true
      → take_member tools options p
          (record { name = name; size = length body })
          (between t (body ++ zs) none (length body) q)
        ≡ (
          and_then (control_read name body) (λ control.
              ok (record p { control = control; seen_control = true; stage = data_next })),
          behind name body,
        )
  unfolding take_member ◌>>=◌
  take_control p name body here plain control = rw here (
      rw plain (
        rw control (
          ap
            (λ x.
              continue x.0
                (λ value a.
                  (ok (record p { control = value; seen_control = true; stage = data_next }), a))
                x.1)
            (read_control-front name body)
          ∙ continue_lem
              (λ value. record p { control = value; seen_control = true; stage = data_next })
              (control_read name body) (behind name body))))

  pub take_data :
      (p : Progress) (name : Text) (size : ℕ) (a : Archive)
      → p.stage ≡ data_next
      → has_prefix name (codes "_") ≡ false
      → has_prefix name (codes "data.tar") ≡ true
      → take_member tools options p (record { name = name; size = size }) a
        ≡ (ok (record p { seen_data = true; stage = trailing }), a)
  unfolding take_member
  take_data p name size a here plain data_tar = rw here (rw plain (rw data_tar refl))
