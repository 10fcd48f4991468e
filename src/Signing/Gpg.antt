-- ===== src/Signing/Gpg.antt =====
-- internal/signing/gpg.go: `GPGSigner.Sign`. The file system and the programs that are run are
-- parameters, as procedures on the state of the machine.
use deb_s.Prelude.{
  ℕ, ◌==◌, List, [], ◌∷◌, ◌++◌, if◌then◌else◌, Text, codes, equal, trim, is_space, Result, ok, err,
  failed, wrapped, is_not_found, Exec, pure, lift, wrapping, caught, ◌>>=◌, ◌>>◌, empty_key_id,
  missing_signature, empty_signature_file,
}
use deb_s.GoPath.{join_path}
use deb_s.Apt.Release.Types.{SignatureArtifacts}

-- `make_directory` is `os.MkdirTemp`; `run_program` takes the program, its arguments and what is put
-- behind the environment, and returns the output beside an error.
pub record Machine (M : Type 0) : Type 0 where
  pub make_directory : Exec M Text
  pub write_file : Text → Text → Exec M (Unit {0})
  pub run_program : Text → List Text → List Text → M → (Text × Result (Unit {0})) × M
  pub file_size : Text → Exec M ℕ
  pub read_file : Text → Exec M Text
  pub remove_all : Text → M → M

pub record GpgSigner : Type 0 where
  pub provider : Text
  pub keys : List Text
  pub extra_options : List Text
  pub home_dir : Text
  pub env : List Text

-- `--local-user` for each key.
unfoldable pub key_options : List Text → Result (List Text)
unfolding equal trim
key_options [] = ok []
key_options (key ∷ keys) =
    if equal (trim is_space key) []
    then err (failed empty_key_id)
    else in_front key (key_options keys)
  where
    in_front : Text → Result (List Text) → Result (List Text)
    in_front key (ok options) = ok (codes "--local-user" ∷ key ∷ options)
    in_front key (err e) = err e

unfoldable pub environment : GpgSigner → List Text
unfolding equal
environment signer =
    if equal signer.home_dir []
    then signer.env
    else signer.env ++ (codes "GNUPGHOME=" ++ signer.home_dir) ∷ []

unfoldable pub provider_of : GpgSigner → Text
unfolding equal
provider_of signer = if equal signer.provider [] then codes "gpg" else signer.provider

abbrev pub common_options : GpgSigner → List Text → List Text
common_options signer keys =
    codes "--batch"
    ∷ codes "--yes"
    ∷ codes "--armor"
    ∷ (keys ++ (signer.extra_options ++ codes "--digest-algo" ∷ codes "SHA256" ∷ []))

abbrev pub release_path : Text → Text
release_path directory = join_path (directory ∷ codes "Release" ∷ [])

abbrev pub in_release_path : Text → Text
in_release_path directory = join_path (directory ∷ codes "InRelease" ∷ [])

abbrev pub detached_path : Text → Text
detached_path directory = join_path (directory ∷ codes "Release.gpg" ∷ [])

module _ {M : Type 0} (machine : Machine M) (signer : GpgSigner) where
  -- A message of the program is put behind its error.
  abbrev with_output : (Text × Result (Unit {0})) × M → Result (Unit {0}) × M
  with_output ((output, ok _), m) = (ok tt, m)
  with_output ((output, err e), m) =
      (err (if equal (trim is_space output) [] then e else wrapped e), m)

  -- `GPGSigner.run`
  unfoldable pub run : List Text → Exec M (Unit {0})
  unfolding equal trim provider_of environment
  run args m = with_output (machine.run_program (provider_of signer) args (environment signer) m)

  abbrev sized_file : Result ℕ → Result (Unit {0})
  sized_file (ok size) = if size == 0 then err (failed empty_signature_file) else ok tt
  sized_file (err e) = if is_not_found e then err (failed missing_signature) else err (wrapped e)

  -- `requireFile`
  unfoldable pub require_file : Text → Exec M (Unit {0})
  unfolding ◌>>=◌
  require_file filename = do size ← caught (machine.file_size filename); lift (sized_file size)

  abbrev pub clear_sign : Text → List Text → Exec M (Unit {0})
  clear_sign directory keys = wrapping (
      run (
        common_options signer keys
        ++ codes "--output"
          ∷ in_release_path directory
          ∷ codes "--clearsign"
          ∷ release_path directory
          ∷ []))

  abbrev pub detach_sign : Text → List Text → Exec M (Unit {0})
  detach_sign directory keys = wrapping (
      run (
        common_options signer keys
        ++ codes "--output"
          ∷ detached_path directory
          ∷ codes "--detach-sign"
          ∷ release_path directory
          ∷ []))

  abbrev pub verify_clear : Text → Exec M (Unit {0})
  verify_clear directory = run (codes "--batch" ∷ codes "--verify" ∷ in_release_path directory ∷ [])

  abbrev pub verify_detached : Text → Exec M (Unit {0})
  verify_detached directory =
      run
        (codes "--batch" ∷ codes "--verify" ∷ detached_path directory ∷ release_path directory ∷ [])

  -- The signatures, after gpg has accepted both.
  unfoldable pub verified : Text → Exec M SignatureArtifacts
  unfolding run join_path ◌>>=◌
  verified directory = do
    wrapping (verify_clear directory)
    wrapping (verify_detached directory)
    in_release ← wrapping (machine.read_file (in_release_path directory))
    detached ← wrapping (machine.read_file (detached_path directory))
    pure (record { in_release = in_release; release_gpg = detached })

  -- `Sign`, in its directory.
  unfoldable pub sign_in : Text → Text → Exec M SignatureArtifacts
  unfolding key_options run require_file verified join_path ◌>>=◌
  sign_in release directory = do
    wrapping (machine.write_file (release_path directory) release)
    keys ← lift (key_options signer.keys)
    clear_sign directory keys
    detach_sign directory keys
    require_file (in_release_path directory)
    require_file (detached_path directory)
    verified directory

  abbrev pub removing : Text → Exec M SignatureArtifacts → Exec M SignatureArtifacts
  removing directory m s = let (r, s') = m s in (r, machine.remove_all directory s')

  -- `Sign`; the directory is removed in every case.
  unfoldable pub sign : Text → Exec M SignatureArtifacts
  unfolding sign_in ◌>>=◌
  sign release = do
    directory ← wrapping machine.make_directory
    removing directory (sign_in release directory)
