-- ===== src/Signing/Verified.antt =====
-- internal/signing/gpg.go: what has happened when `Sign` returns signatures.
use deb_s.Prelude.{
  ◌≡◌, refl, ap, subst, Text, Result, ok, err, wrapped, wrap, Exec, wrapping, lift, ◌>>=◌,
  ok-injective, Result-cases, inl, inr,
}
use deb_s.Apt.Release.Types.{SignatureArtifacts}
use deb_s.Signing.Gpg.{
  Machine, GpgSigner, in_release_path, detached_path, release_path, key_options, clear_sign,
  detach_sign, require_file, verify_clear, verify_detached, verified, sign_in, sign, removing,
}

module _ {M A B : Type 0} where
  bind-eq-ok :
      (m : Exec M A) (f : A → Exec M B) (s s' : M) (b : B)
      → (m >>= f) s ≡ (ok b, s')
      → (a : A) × (s1 : M) × (m s ≡ (ok a, s1)) × (f a s1 ≡ (ok b, s'))
  unfolding ◌>>=◌
  bind-eq-ok m f s s' b = elim (Result-cases (m s).0) [
    | inl (a, e) ↦ rw e (λ h. (a, (m s).1, refl, h))
    | inr (x, e) ↦ rw e (λ h. let no : err x ≡ ok b = ap (λ p. p.0) h in cc)
  ]

-- Where the call succeeds, the result and the state are as `Q` says.
record Ensures {M A : Type 0} (m : Exec M A) (s : M) (Q : A → M → Type 0) : Type 0 where
  ensures : (a : A) (s' : M) → m s ≡ (ok a, s') → Q a s'

module _ {M A B : Type 0} (m : Exec M A) (f : A → Exec M B) {s : M} {Q : B → M → Type 0} where
  bind-Ensures : ((a : A) (s1 : M) → m s ≡ (ok a, s1) → Ensures (f a) s1 Q) → Ensures (m >>= f) s Q
  bind-Ensures rest = record {
    ensures = λ b s' h.
        let (a, s1, first, then_f) = bind-eq-ok m f s s' b h in
        (rest a s1 first).ensures b s' then_f;
  }

module _ {M A : Type 0} where
  wrapping-eq-ok : (m : Exec M A) (s s' : M) (a : A) → wrapping m s ≡ (ok a, s') → m s ≡ (ok a, s')
  wrapping-eq-ok m s s' a h = unwrap (m s) h
    where
      unwrap :
          (x : Result A × M) → ◌≡◌ {A = Result A × M} (wrap x.0, x.1) (ok a, s') → x ≡ (ok a, s')
      unwrap (ok b, t) k = k
      unwrap (err e, t) k = let no : err (wrapped e) ≡ ok a = ap (λ p. p.0) k in cc

module _ {M : Type 0} (machine : Machine M) (signer : GpgSigner) where
  -- gpg accepted both signatures, one after the other, and then the files were read.
  abbrev pub IsVerified : Text → SignatureArtifacts → M → Type 0
  IsVerified directory artifacts after =
      (a : M) × (b : M) × (c : M) × (d : M) × (verify_clear machine signer directory a ≡ (ok tt, b))
      × (verify_detached machine signer directory b ≡ (ok tt, c))
      × (machine.read_file (in_release_path directory) c ≡ (ok artifacts.in_release, d))
      × (machine.read_file (detached_path directory) d ≡ (ok artifacts.release_gpg, after))

  returns-IsVerified :
      (directory : Text) (x : SignatureArtifacts) (s : M)
      → IsVerified directory x s
      → Ensures (λ t. (ok x, t)) s (IsVerified directory)
  returns-IsVerified directory x s verified = record {
    ensures = λ a s' h.
        let same : x ≡ a = let first : ok x ≡ ok a = ap (λ p. p.0) h in ok-injective first in
        let there : s ≡ s' = ap (λ p. p.1) h in
        subst (λ y. IsVerified directory y s') same
          (subst (λ t. IsVerified directory x t) there verified);
  }

  verified-IsVerified :
      (directory : Text) (a : M)
      → Ensures (verified machine signer directory) a (IsVerified directory)
  unfolding verified
  verified-IsVerified directory a =
      bind-Ensures (wrapping (verify_clear machine signer directory)) _ λ _ b first.
        bind-Ensures (wrapping (verify_detached machine signer directory)) _ λ _ c second.
          bind-Ensures (wrapping (machine.read_file (in_release_path directory))) _
            λ in_release d third.
              bind-Ensures (wrapping (machine.read_file (detached_path directory))) _
                λ detached e fourth.
                  returns-IsVerified directory
                    (record { in_release = in_release; release_gpg = detached }) e
                    (
                      a,
                      b,
                      c,
                      d,
                      wrapping-eq-ok (verify_clear machine signer directory) a b tt first,
                      wrapping-eq-ok (verify_detached machine signer directory) b c tt second,
                      wrapping-eq-ok (machine.read_file (in_release_path directory)) c d in_release
                          third,
                      wrapping-eq-ok (machine.read_file (detached_path directory)) d e detached
                          fourth,
                    )

  sign_in-IsVerified :
      (release directory : Text) (m : M)
      → Ensures (sign_in machine signer release directory) m (IsVerified directory)
  unfolding sign_in
  sign_in-IsVerified release directory m =
      bind-Ensures (wrapping (machine.write_file (release_path directory) release)) _ λ _ s1 _.
        bind-Ensures (lift (key_options signer.keys)) _ λ keys s2 _.
          bind-Ensures (clear_sign machine signer directory keys) _ λ _ s3 _.
            bind-Ensures (detach_sign machine signer directory keys) _ λ _ s4 _.
              bind-Ensures (require_file machine signer (in_release_path directory)) _ λ _ s5 _.
                bind-Ensures (require_file machine signer (detached_path directory)) _
                  λ _ s6 _. verified-IsVerified directory s6

  removing-lem :
      (directory release : Text) (s s' : M) (artifacts : SignatureArtifacts)
      → removing machine signer directory (sign_in machine signer release directory) s
        ≡ (ok artifacts, s')
      → (e : M) × IsVerified directory artifacts e × (machine.remove_all directory e ≡ s')
  removing-lem directory release s s' artifacts h =
      let x = sign_in machine signer release directory s in
      (
        x.1,
        (sign_in-IsVerified release directory s).ensures artifacts x.1
            (ap (λ r. (r, x.1)) (ap (λ p. p.0) h)),
        ap (λ p. p.1) h,
      )

  -- When Sign returns signatures, gpg has accepted first InRelease and then Release.gpg in one
  -- directory, the two signatures are what the files of these names held right after, and the
  -- directory was removed in the end.
  pub sign-IsVerified :
      (release : Text) (m m' : M) (artifacts : SignatureArtifacts)
      → sign machine signer release m ≡ (ok artifacts, m')
      → (directory : Text) × (e : M) × IsVerified directory artifacts e
        × (machine.remove_all directory e ≡ m')
  unfolding sign
  sign-IsVerified release m m' artifacts h =
      let (directory, s, _, rest) =
        bind-eq-ok (wrapping machine.make_directory)
          (λ directory.
            removing machine signer directory (sign_in machine signer release directory))
          m m' artifacts h in
      let (e, verified, there) = removing-lem directory release s m' artifacts rest in
      (directory, e, verified, there)
