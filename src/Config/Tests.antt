-- ===== src/Config/Tests.antt =====
-- A run of `Validate`.
use deb_s.Prelude.{◌≡◌, ◌↔◌, true, false, ◌&&◌, [], codes, equal, contains}
use deb_s.Config.{Config, valid, new, validate, visibilities}
use deb_s.Config.Accepted.{validate_lem}

abbrev in_bucket : Config
in_bucket = record new { bucket = codes "b" }

validate_lem_example : (validate in_bucket ≡ valid) ↔ (
    (equal in_bucket.bucket [] ≡ false)
    × (equal in_bucket.access_key_id [] ≡ equal in_bucket.secret_access_key [])
    × (contains visibilities in_bucket.visibility ≡ true)
    × (equal in_bucket.codename [] ≡ false)
    × ((equal in_bucket.component [] && equal in_bucket.section []) ≡ false))
validate_lem_example = validate_lem in_bucket
