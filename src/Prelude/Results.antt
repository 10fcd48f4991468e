-- ===== src/Prelude/Results.antt =====
-- Go's `(value, error)` results, and procedures on a state.
use mathlib.Core.Path.{◌≡◌, refl}
use mathlib.Core.Bool.{Bool, true, false, ◌||◌}
use mathlib.Core.Logic.{◌⊎◌, inl, inr}
use deb_s.Prelude.Texts.{Text}

-- Why an operation fails, one constructor for each message of the source.
pub data Reason : Type 0 where
  empty_key key_backslash key_escapes prefix_backslash prefix_escapes : Reason
  no_package_name no_source_filename no_pool_path outside_pool open_failed : Reason
  no_clock empty_signature signing_failed unsafe_codename bad_owner : Reason
  no_version bad_version bad_paragraph : Reason
  no_files file_missing bad_architecture no_architecture examine_failed : Reason
  bad_endpoint bad_proxy unknown_visibility no_continuation : Reason
  bad_config : Reason
  end_of_file unexpected_end : Reason
  missing_magic incorrect_magic truncated_member truncated_padding truncated_header bad_trailer :
      Reason
  empty_name extended_name bad_size : Reason
  not_debian_binary large_debian_binary truncated_debian_binary unsupported_version : Reason
  unexpected_member no_debian_binary no_control_archive no_data_archive : Reason
  bad_compression unsupported_compression unsafe_tar_path bad_tar not_regular unreadable_control :
      Reason
  archive_too_large no_control_file : Reason
  bad_flag no_architecture_set no_package_found nothing_found nothing_deleted packages_missing :
      Reason
  bad_options empty_key_id missing_signature empty_signature_file : Reason

-- `wrapped` is `fmt.Errorf("…: %w", err)`, which `errors.Is` sees through. Messages are left out.
pub data Error : Type 0 where
  not_found conflict : Text → Error
  package_conflict : Text → Text → Text → Text → Error
  failed : Reason → Error
  cancelled locked not_owner unsupported no_packages_found no_packages_deleted package_not_found :
      Error
  -- An error of a remote service, with its code.
  backend : Text → Error
  wrapped : Error → Error
  -- `errors.Join` of two errors.
  joined : Error → Error → Error

-- `errors.Is(err, storage.ErrNotFound)`
abbrev pub is_not_found : Error → Bool
is_not_found (not_found _) = true
is_not_found (wrapped e) = is_not_found e
is_not_found (joined e f) = is_not_found e || is_not_found f
is_not_found _ = false

-- `errors.Is(err, storage.ErrConflict)`
abbrev pub is_conflict : Error → Bool
is_conflict (conflict _) = true
is_conflict (wrapped e) = is_conflict e
is_conflict (joined e f) = is_conflict e || is_conflict f
is_conflict _ = false

pub data Result {ℓ} (A : Type ℓ) : Type ℓ where
  ok : A → Result A
  err : Error → Result A

module _ {ℓ κ} {A : Type ℓ} {B : Type κ} where
  -- `if err != nil { return err }`, then the rest.
  abbrev pub and_then : Result A → (A → Result B) → Result B
  and_then (ok a) f = f a
  and_then (err e) f = err e

  pub and_then-eq-ok :
      (m : Result A) (f : A → Result B) {b : B}
      → and_then m f ≡ ok b
      → (a : A) × (m ≡ ok a) × (f a ≡ ok b)
  and_then-eq-ok (ok a) f h = (a, refl, h)
  and_then-eq-ok (err e) f h = cc

-- `return fmt.Errorf("…: %w", err)` where a call fails.
abbrev pub wrap {ℓ} : {A : Type ℓ} → Result A → Result A
wrap (ok a) = ok a
wrap (err e) = err (wrapped e)

-- A procedure: it returns a value or an error, and what it did to the state stays done.
abbrev pub Exec {ℓ} : Type ℓ → Type ℓ → Type ℓ
Exec S A = S → Result A × S

module _ {ℓ} {S A : Type ℓ} where
  abbrev pub pure : A → Exec S A
  pure a s = (ok a, s)

  abbrev pub raise : Error → Exec S A
  raise e s = (err e, s)

  abbrev pub lift : Result A → Exec S A
  lift r s = (r, s)

  abbrev pub wrapping : Exec S A → Exec S A
  wrapping m s = let (r, s') = m s in (wrap r, s')

-- The error as a value, for code that looks at it.
abbrev pub caught {ℓ} : {S A : Type ℓ} → Exec S A → Exec S (Result A)
caught m s = let (r, s') = m s in (ok r, s')

module _ {ℓ} {S A B : Type ℓ} where
  abbrev pub continue : Result A → (A → Exec S B) → Exec S B
  continue (ok a) f s = f a s
  continue (err e) f s = (err e, s)

  infixl 5 ◌>>=◌ ◌>>◌
  unfoldable pub ◌>>=◌ : Exec S A → (A → Exec S B) → Exec S B
  ◌>>=◌ m f s = let (r, s') = m s in continue r f s'

  abbrev pub ◌>>◌ : Exec S A → Exec S B → Exec S B
  m >> n = m >>= λ _. n

pub Result-cases {ℓ} :
    {A : Type ℓ} (r : Result A) → ((a : A) × (r ≡ ok a)) ⊎ ((e : Error) × (r ≡ err e))
Result-cases (ok a) = inl (a, refl)
Result-cases (err e) = inr (e, refl)

pub ok-injective {ℓ} : {A : Type ℓ} {a b : A} → ok a ≡ ok b → a ≡ b
ok-injective h = cc
