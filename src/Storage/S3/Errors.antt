-- ===== src/Storage/S3/Errors.antt =====
-- internal/storage/s3.go: `mapS3Error`.
use deb_s.Prelude.{
  Option, none, some, ◌∷◌, [], List, Text, codes, contains, if◌then◌else◌, Error, backend, wrapped,
  not_found, conflict, Result, ok, err, Exec,
}

-- `errors.As(err, &apiError)`, with the code of the error found.
abbrev pub api_code : Error → Option Text
api_code (backend code) = some code
api_code (wrapped e) = api_code e
api_code _ = none

abbrev pub absent_codes : List Text
absent_codes = codes "NoSuchKey" ∷ codes "NotFound" ∷ codes "404" ∷ []

abbrev pub failed_condition_codes : List Text
failed_condition_codes =
    codes "PreconditionFailed" ∷ codes "ConditionalRequestConflict" ∷ codes "412" ∷ codes "409" ∷ []

abbrev pub with_code : Text → Error → Option Text → Error
with_code key e none = wrapped e
with_code key e (some code) =
    if contains absent_codes code
    then not_found key
    else if contains failed_condition_codes code
    then conflict key
    else wrapped e

unfoldable pub map_s3_error : Text → Error → Error
unfolding contains
map_s3_error key e = with_code key e (api_code e)

abbrev pub mapped : {A : Type 0} → Text → Result A → Result A
mapped key (ok a) = ok a
mapped key (err e) = err (map_s3_error key e)

-- `if err != nil { return mapS3Error(key, err) }`
abbrev pub mapping : {S A : Type 0} → Text → Exec S A → Exec S A
mapping key m s = let (r, s') = m s in (mapped key r, s')
