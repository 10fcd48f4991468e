-- ===== src/Signing/Tests.antt =====
-- Runs of internal/signing, on a machine whose gpg always succeeds.
use deb_s.Prelude.{
  ℕ, ◌≡◌, refl, Option, none, some, [], ◌∷◌, Text, codes, length, Dict, lookup, insert, Result, ok,
  err, not_found, equal,
}
use deb_s.Apt.Release.Types.{SignatureArtifacts}
use deb_s.Signing.{parse_options}
use deb_s.Signing.Quoting.{command_line, parse_options-command_line}
use deb_s.Signing.Gpg.{Machine, GpgSigner, sign, sign_in}
use deb_s.Signing.Verified.{IsVerified, sign-IsVerified}

quotes_lem :
    parse_options (codes "--a 'b c'\\ d \"e\\\"\" ''")
    ≡ ok (codes "--a" ∷ codes "b c d" ∷ codes "e\"" ∷ [] ∷ [])
unfolding parse_options
quotes_lem = refl

parse_options-command_line_example :
    parse_options (command_line (codes "--a b" ∷ [] ∷ codes "'" ∷ []))
    ≡ ok (codes "--a b" ∷ [] ∷ codes "'" ∷ [])
parse_options-command_line_example =
    parse_options-command_line (codes "--a b" ∷ [] ∷ codes "'" ∷ [])

abbrev or_missing : Text → Option Text → Result Text
or_missing key none = err (not_found key)
or_missing key (some text) = ok text

abbrev or_no_size : Text → Option Text → Result ℕ
or_no_size key none = err (not_found key)
or_no_size key (some text) = ok (length text)

-- Every run of gpg leaves both signatures.
abbrev machine : Machine (Dict Text)
machine = record {
  make_directory = λ m. (ok (codes "/t"), m);
  write_file = λ name text m. (ok tt, insert name text m);
  run_program = λ program args env m. (
    ([], ok tt),
    insert (codes "/t/InRelease") (codes "i") (insert (codes "/t/Release.gpg") (codes "d") m),
  );
  file_size = λ name m. (or_no_size name (lookup name m), m);
  read_file = λ name m. (or_missing name (lookup name m), m);
  remove_all = λ name m. [];
}

abbrev signer : GpgSigner
signer = record {
  provider = [];
  keys = codes "k" ∷ [];
  extra_options = [];
  home_dir = [];
  env = [];
}

abbrev both : SignatureArtifacts
both = record { in_release = codes "i"; release_gpg = codes "d" }

is_signed : sign machine signer (codes "r") [] ≡ (ok both, [])
unfolding sign sign_in lookup insert equal
is_signed = refl

sign-IsVerified_example :
    (directory : Text) × (e : Dict Text) × IsVerified machine signer directory both e
    × (machine.remove_all directory e ≡ [])
sign-IsVerified_example = sign-IsVerified machine signer (codes "r") [] [] both is_signed
