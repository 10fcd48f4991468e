-- ===== src/Deb/Format.antt =====
-- internal/deb: `ReadPackage` of a file with the three members of the format.
use deb_s.Prelude.{
  ℕ, suc, ◌+◌, ◌-◌, ◌%◌, ◌≤◌, ◌≡◌, refl, sym, ap, ◌∙◌, arith, true, false, ◌==◌, if◌then◌else◌,
  none, some, List, [], ◌∷◌, ◌++◌, append-nil, Text, codes, has_prefix, length, drop, length-drop,
  drop-append_le, Result, ok, err, failed, end_of_file, and_then, Bool-cases, inl, inr,
}
use deb_s.Digest.{Codec}
use deb_s.Deb.{
  Progress, members, member_read, member_taken, take_member, check_version, control_next, data_next,
  trailing, at_first, complete, package_info, inspected, if_done, read_package,
}
use deb_s.Deb.Ar.{Archive, Member, ar_magic, new_archive, next, parse_header}
use deb_s.Deb.Control.{Tools, ReaderOptions, with_defaults, control_in}
use deb_s.Deb.Info.{members-whole}
use deb_s.Deb.Written.{
  between, next-front, next-end, next-first, take_version, take_control, take_data, used_of, behind,
  control_read,
}

-- The byte that pads a body to an even length.
abbrev pub padding_of : ℕ → Text
padding_of n = if n % 2 == 0 then [] else codes "\n"

-- Members, each with its header and its body.
abbrev pub written : List (Text × Text) → Text
written [] = []
written ((header, body) ∷ ms) = header ++ (body ++ (padding_of (length body) ++ written ms))

length-padding_of : (n : ℕ) → n % 2 ≡ length (padding_of n)
length-padding_of n = elim (Bool-cases (n % 2 == 0)) [
  | inl e ↦ rw e (ground arith)
  | inr e ↦ rw e (ground arith)
]

next_behind :
    (t xs ys h zs : Text) (r q : ℕ) (m : Member)
    → r ≡ length xs
    → q ≡ length ys
    → length h ≡ 60
    → parse_header h ≡ ok m
    → next (between t (xs ++ (ys ++ (h ++ zs))) none r q)
      ≡ (ok m, between (((t ++ xs) ++ ys) ++ h) zs none m.size (m.size % 2))
next_behind t xs ys h zs r q m here there size parsed =
    rw here (rw there (next-front t none xs ys h zs m size parsed))

next_last :
    (t xs ys : Text) (r q : ℕ)
    → r ≡ length xs
    → q ≡ length ys
    → next (between t (xs ++ (ys ++ [])) none r q)
      ≡ (err (failed end_of_file), between (((t ++ xs) ++ ys) ++ []) [] none 0 0)
next_last t xs ys r q here there = rw here (rw there (next-end t xs ys))

module _ (tools : Tools) (options : ReaderOptions) (n : ℕ) (p : Progress) (a a1 : Archive) where
  members_step :
      (m : Member) (x : Result Progress × Archive)
      → next a ≡ (ok m, a1)
      → take_member tools options p m a1 ≡ x
      → members tools options (suc n) p a ≡ member_taken tools options x (members tools options n)
  unfolding members
  members_step m x got taken =
      ap (λ y. member_read tools options p y (members tools options n)) got
      ∙ ap (λ y. member_taken tools options y (members tools options n)) taken

  members_end :
      next a ≡ (err (failed end_of_file), a1) → members tools options (suc n) p a ≡ some (ok p, a1)
  unfolding members
  members_end got = ap (λ y. member_read tools options p y (members tools options n)) got

plus_4 : (n : ℕ) → n + 4 ≡ suc (suc (suc (suc n)))
plus_4 n = omega arith

-- A header for a member.
pub record Heads (header name body : Text) : Type 0 where
  pub heads : parse_header header ≡ ok (record { name = name; size = length body })
  pub size : length header ≡ 60

module _ (tools : Tools) (options : ReaderOptions) (h1 n1 b1 h2 n2 b2 : Text)
    (head1 : Heads h1 n1 b1) (head2 : Heads h2 n2 b2) (plain1 : has_prefix n1 (codes "_") ≡ false)
    (control1 : has_prefix n1 (codes "control.tar") ≡ true)
    (plain2 : has_prefix n2 (codes "_") ≡ false)
    (data2 : has_prefix n2 (codes "data.tar") ≡ true) where
  abbrev after_data : Progress → Progress
  after_data p = record p { seen_data = true; stage = trailing }

  -- From the data archive to the end.
  data_lem :
      (n : ℕ) (p : Progress) (t xs ys : Text) (r q : ℕ)
      → p.stage ≡ data_next
      → r ≡ length xs
      → q ≡ length ys
      → (a : Archive) × (members tools options
            (suc (suc n))
            p
            (between t (xs ++ (ys ++ written ((h2, b2) ∷ []))) none r q)
          ≡ some (ok (after_data p), a))
  data_lem n p t xs ys r q here e f =
      let m : Member = record { name = n2; size = length b2 } in
      let a =
        between (((t ++ xs) ++ ys) ++ h2) (b2 ++ (padding_of (length b2) ++ [])) none m.size
          (m.size % 2) in
      (
        _,
        members_step tools options (suc n) p _ a m (ok (after_data p), a)
              (next_behind t xs ys h2 (b2 ++ (padding_of (length b2) ++ [])) r q m e f head2.size
                head2.heads)
              (take_data tools options t xs q p n2 (length b2) a here plain2 data2)
            ∙ members_end tools options n (after_data p) a _ (
                next_last _ b2 (padding_of (length b2)) (length b2) (length b2 % 2) refl
                  (length-padding_of (length b2))),
      )

  abbrev after_control : Progress → Text → Progress
  after_control p control = record p { control = control; seen_control = true; stage = data_next }

  abbrev rest_of : Text
  rest_of = padding_of (length b1) ++ written ((h2, b2) ∷ [])

  abbrev read : Result Text
  read = control_read tools options [] [] 0 n1 b1

  -- What the loop makes of a control archive that was read, or not.
  control_done :
      (n : ℕ) (p : Progress) (t : Text) (r : Result Text)
      → (b : Archive) × (member_taken tools options
            (
              and_then r (λ control. ok (after_control p control)),
              behind tools options t rest_of (length b1 % 2) n1 b1,
            )
            (members tools options (suc (suc n)))
          ≡ some (and_then r (λ control. ok (after_data (after_control p control))), b))
  control_done n p t (err e) = (_, refl)
  control_done n p t (ok control) =
      let u = used_of tools options [] [] 0 n1 b1 in
      let small : u ≤ length b1 = omega arith in
      rw (drop-append_le u b1 rest_of small) (
        data_lem n (after_control p control) _ (drop u b1) (padding_of (length b1)) (length b1 - u)
          (length b1 % 2) refl (sym (length-drop u b1)) (length-padding_of (length b1)))

  -- From the control archive on.
  control_lem :
      (n : ℕ) (p : Progress) (t xs ys : Text) (r q : ℕ)
      → p.stage ≡ control_next
      → r ≡ length xs
      → q ≡ length ys
      → (b : Archive) × (members tools options
            (suc (suc (suc n)))
            p
            (between t (xs ++ (ys ++ written ((h1, b1) ∷ (h2, b2) ∷ []))) none r q)
          ≡ some (and_then read (λ control. ok (after_data (after_control p control))), b))
  control_lem n p t xs ys r q here e f =
      let t' = ((t ++ xs) ++ ys) ++ h1 in
      let m : Member = record { name = n1; size = length b1 } in
      let a = between t' (b1 ++ rest_of) none m.size (m.size % 2) in
      let (b, done) = control_done n p t' read in
      (
        b,
        members_step tools options (suc (suc n)) p _ a m _
              (next_behind t xs ys h1 (b1 ++ rest_of) r q m e f head1.size head1.heads)
              (take_control tools options t' rest_of (length b1 % 2) p n1 b1 here plain1 control1)
            ∙ done,
      )

  module _ (h0 b0 : Text) (head0 : Heads h0 (codes "debian-binary") b0) (small : length b0 ≤ 32)
      (valid : check_version b0 ≡ ok tt) where
    abbrev file : Text
    file = ar_magic ++ written ((h0, b0) ∷ (h1, b1) ∷ (h2, b2) ∷ [])

    -- How the loop ends.
    abbrev ended : Result Text → Result Progress
    ended r = and_then r (λ control. ok (
        after_data (
          after_control (record at_first { seen_debian_binary = true; stage = control_next })
            control)))

    version_lem :
        (n : ℕ)
        → (b : Archive) × (members tools options
              (suc (suc (suc (suc n))))
              at_first
              (new_archive file none)
            ≡ some (ended read, b))
    version_lem n =
        let rest = padding_of (length b0) ++ written ((h1, b1) ∷ (h2, b2) ∷ []) in
        let t = ar_magic ++ h0 in
        let m : Member = record { name = codes "debian-binary"; size = length b0 } in
        let p = record at_first { seen_debian_binary = true; stage = control_next } in
        let (b, done) =
          control_lem n p (t ++ b0) [] (padding_of (length b0)) 0 (length b0 % 2) refl refl
            (length-padding_of (length b0)) in
        (
          b,
          members_step tools options (suc (suc (suc n))) at_first _
                (between t (b0 ++ rest) none m.size (m.size % 2)) m _
                (next-first h0 (b0 ++ rest) m head0.size head0.heads)
                (take_version tools options t rest (length b0 % 2) b0 small valid)
              ∙ done,
        )

    inspected_lem :
        (c : Codec) (maintainer : Text) (r : Result Text) (b : Archive)
        → ((p : Progress) → ended r ≡ ok p → b.taken ≡ file)
        → inspected c maintainer (ended r, b) ≡ and_then r (package_info c maintainer file)
    unfolding complete
    inspected_lem c maintainer (err e) b taken = refl
    inspected_lem c maintainer (ok control) b taken =
        ap (λ x. package_info c maintainer x control) (taken _ refl)

    ended_taken :
        (n : ℕ) (b : Archive)
        → members tools options (suc (suc (suc (suc n)))) at_first (new_archive file none)
          ≡ some (ended read, b)
        → (p : Progress) → ended read ≡ ok p
        → b.taken ≡ file
    ended_taken n b h p done =
        let (kept, ended) =
          members-whole tools options _ at_first (new_archive file none) p b
            (h ∙ ap (λ x. some (x, b)) done) in
        sym (append-nil b.taken) ∙ ap (λ t. b.taken ++ t) (sym ended) ∙ kept

-- ReadPackage of a file that has the magic and the members debian-binary, control.tar* and
-- data.tar*, each with a header that parses and an even padding, and a version 2 in at most 32
-- bytes, returns what the control archive's body is read as, with the size and the digests of the
-- whole file.
pub read_package-written :
    (tools : Tools) (options : ReaderOptions) (c : Codec)
    (maintainer h0 b0 h1 n1 b1 h2 n2 b2 : Text) (n : ℕ)
    → Heads h0 (codes "debian-binary") b0
    → Heads h1 n1 b1
    → Heads h2 n2 b2
    → length b0 ≤ 32
    → check_version b0 ≡ ok tt
    → has_prefix n1 (codes "_") ≡ false
    → has_prefix n1 (codes "control.tar") ≡ true
    → has_prefix n2 (codes "_") ≡ false
    → has_prefix n2 (codes "data.tar") ≡ true
    → read_package
        (n + 4)
        tools
        c
        maintainer
        options
        (ar_magic ++ written ((h0, b0) ∷ (h1, b1) ∷ (h2, b2) ∷ []))
        none
      ≡ some (
          and_then
            (control_in tools
              (with_defaults options)
              (record { name = n1; size = length b1 })
              (record { bytes = b1; stop = none }))
            (package_info c maintainer (ar_magic ++ written ((h0, b0) ∷ (h1, b1) ∷ (h2, b2) ∷ []))))
unfolding read_package
read_package-written tools options c maintainer h0 b0 h1 n1 b1 h2 n2 b2 n head0 head1 head2 small
      valid plain1 control1 plain2 data2 =
    let o = with_defaults options in
    let (b, done) =
      version_lem tools o h1 n1 b1 h2 n2 b2 head1 head2 plain1 control1 plain2 data2 h0 b0 head0
        small valid n in
    let taken =
      ended_taken tools o h1 n1 b1 h2 n2 b2 head1 head2 plain1 control1 plain2 data2 h0 b0 head0
        small valid n b done in
    rw (plus_4 n) (
      ap (if_done c maintainer) done
      ∙ ap some (
          inspected_lem tools o h1 n1 b1 h2 n2 b2 head1 head2 plain1 control1 plain2 data2 h0 b0
            head0 small valid c maintainer _ b taken))
