-- ===== src/Deb/Info.antt =====
-- internal/deb/reader.go: what `ReadPackage` says of the file, by the bytes that it was given.
use deb_s.Prelude.{
  ℕ, zero, suc, ◌≡◌, refl, sym, ap, ◌∙◌, true, Option, none, some, [], ◌++◌, append-nil, Text,
  length, Error, Result, ok, err, wrap, and_then-eq-ok, ok-injective, Bool-cases, inl, inr,
}
use deb_s.Digest.{Codec, encode_to_string}
use deb_s.Apt.Package.Parse.{parse_package}
use deb_s.Deb.{
  PackageInfo, Progress, at_first, members, member_read, member_taken, take_member, complete,
  package_info, without_index_fields, if_done, read_package,
}
use deb_s.Deb.Ar.{Archive, Member, new_archive, next, is_end}
use deb_s.Deb.Control.{Tools, ReaderOptions, with_defaults}
use deb_s.Deb.Whole.{whole, next-Keeps, take_member-Keeps}
use deb_s.Deb.Ends.{next-EndsAtRest}

some-injective : {A : Type 0} {x y : A} → some x ≡ some y → x ≡ y
some-injective h = cc

ended_here :
    {t : Text} (a : Archive) (p p' : Progress) (a' : Archive)
    → ◌≡◌ {A = Option (Result Progress × Archive)} (some (ok p, a)) (some (ok p', a'))
    → whole a ≡ t
    → a.rest ≡ []
    → (whole a' ≡ t) × (a'.rest ≡ [])
ended_here a p p' a' h kept ended = let same : a ≡ a' = cc in rw (sym same) (kept, ended)

module _ (tools : Tools) (options : ReaderOptions) where
  -- A loop that stops at the end of the input.
  abbrev pub Finishes : (Progress → Archive → Option (Result Progress × Archive)) → Type 0
  Finishes rest =
      (q : Progress) (b : Archive) (p' : Progress) (a' : Archive)
      → rest q b ≡ some (ok p', a')
      → (whole a' ≡ whole b) × (a'.rest ≡ [])

  member_taken-whole :
      {t : Text} (x : Result Progress × Archive)
      (rest : Progress → Archive → Option (Result Progress × Archive)) (p' : Progress)
      (a' : Archive)
      → whole x.1 ≡ t
      → Finishes rest
      → member_taken tools options x rest ≡ some (ok p', a')
      → (whole a' ≡ t) × (a'.rest ≡ [])
  member_taken-whole (ok q, b) rest p' a' kept finishes h =
      let (k, e) = finishes q b p' a' h in (k ∙ kept, e)
  member_taken-whole (err e, b) rest p' a' kept finishes h = cc

  member_read-whole :
      {t : Text} (p : Progress) (x : Result Member × Archive)
      (rest : Progress → Archive → Option (Result Progress × Archive)) (p' : Progress)
      (a' : Archive)
      → whole x.1 ≡ t
      → ((e : Error) → x.0 ≡ err e → is_end e ≡ true → x.1.rest ≡ [])
      → Finishes rest
      → member_read tools options p x rest ≡ some (ok p', a')
      → (whole a' ≡ t) × (a'.rest ≡ [])
  member_read-whole p (ok member, b) rest p' a' kept at_end finishes = λ h.
      member_taken-whole (take_member tools options p member b) rest p' a'
        ((take_member-Keeps tools options p member).keeps b ∙ kept) finishes h
  member_read-whole p (err e, b) rest p' a' kept at_end finishes = elim (Bool-cases (is_end e)) [
    | inl end ↦ rw end (λ h. ended_here b p p' a' h kept (at_end e refl end))
    | inr more ↦ rw more (λ h. cc)
  ]

  pub members-whole : (fuel : ℕ) → Finishes (members tools options fuel)
  unfolding members
  members-whole zero p a p' a' h = cc
  members-whole (suc fuel) p a p' a' h =
      member_read-whole p (next a) (members tools options fuel) p' a' (next-Keeps.keeps a)
        (next-EndsAtRest.at_end a) (members-whole fuel) h

module _ (c : Codec) (maintainer : Text) (input : Text) where
  -- The facts about the file are those of the input, and the package claims none of them.
  abbrev pub IsOf : PackageInfo → Type 0
  IsOf info =
      (info.size ≡ length input)
      × (info.md5 ≡ encode_to_string (c.md5_sum input))
      × (info.sha1 ≡ encode_to_string (c.sha1_sum input))
      × (info.sha256 ≡ encode_to_string (c.sha256_sum input))
      × (info.metadata.index_filename ≡ none)
      × (info.metadata.size ≡ none)
      × (info.metadata.md5 ≡ none)
      × (info.metadata.sha1 ≡ none)
      × (info.metadata.sha256 ≡ none)

  package_info-IsOf :
      (taken control : Text) (info : PackageInfo)
      → taken ≡ input
      → package_info c maintainer taken control ≡ ok info
      → IsOf info
  unfolding package_info without_index_fields
  package_info-IsOf taken control info same h =
      let (pack, parsed, made) = and_then-eq-ok (wrap (parse_package maintainer control)) _ h in
      rw (sym (ok-injective made)) (rw same (refl, refl, refl, refl, refl, refl, refl, refl, refl))

  if_done-IsOf :
      (x : Option (Result Progress × Archive)) (info : PackageInfo)
      → ((p : Progress) (a : Archive) → x ≡ some (ok p, a) → a.taken ≡ input)
      → if_done c maintainer x ≡ some (ok info)
      → IsOf info
  if_done-IsOf none info whole h = cc
  if_done-IsOf (some (err e, a)) info whole h = cc
  if_done-IsOf (some (ok p, a)) info whole h =
      let (control, completed, made) =
        and_then-eq-ok (complete p) (λ t. package_info c maintainer a.taken t) (some-injective h) in
      package_info-IsOf a.taken control info (whole p a refl) made

  -- When ReadPackage succeeds, the size and the digests it returns are those of all the bytes of
  -- its input, and the package has no Filename, Size or digest of its own, whatever its control
  -- file says.
  pub read_package-IsOf :
      (fuel : ℕ) (tools : Tools) (options : ReaderOptions) (stop : Option Error)
      (info : PackageInfo)
      → read_package fuel tools c maintainer options input stop ≡ some (ok info)
      → IsOf info
  unfolding read_package
  read_package-IsOf fuel tools options stop info =
      if_done-IsOf (members tools (with_defaults options) fuel at_first (new_archive input stop))
        info
        λ p a h.
          let (kept, ended) =
            members-whole tools (with_defaults options) fuel at_first (new_archive input stop) p a
              h in
          sym (append-nil a.taken) ∙ ap (λ t. a.taken ++ t) (sym ended) ∙ kept
