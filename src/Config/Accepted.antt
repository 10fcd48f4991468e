-- ===== src/Config/Accepted.antt =====
-- internal/config/config.go: the configurations that `Validate` accepts.
use deb_s.Prelude.{
  ◌≡◌, ◌↔◌, arith, Bool, true, false, not, ◌&&◌, [], equal, contains, if◌then◌else◌,
}
use deb_s.Config.{
  Config, valid, no_bucket, half_credentials, bad_visibility, no_codename, no_component, validate,
  differ, visibilities,
}

verdict :
    (bucket id secret visible codename component section : Bool)
    → ((if bucket
          then no_bucket
          else if differ id secret
          then half_credentials
          else if not visible
          then bad_visibility
          else if codename
          then no_codename
          else if component && section
          then no_component
          else valid)
        ≡ valid)
      ↔ ((bucket ≡ false)
          × (id ≡ secret)
          × (visible ≡ true)
          × (codename ≡ false)
          × ((component && section) ≡ false))
verdict bucket id secret visible codename component section = ground arith

-- Validate accepts a configuration exactly when it has a bucket, both or none of the two keys,
-- one of the five visibilities, a codename, and a component or a section.
pub validate_lem :
    (c : Config)
    → (validate c ≡ valid) ↔ (
        (equal c.bucket [] ≡ false)
        × (equal c.access_key_id [] ≡ equal c.secret_access_key [])
        × (contains visibilities c.visibility ≡ true)
        × (equal c.codename [] ≡ false)
        × ((equal c.component [] && equal c.section []) ≡ false))
unfolding validate
validate_lem c =
    verdict (equal c.bucket []) (equal c.access_key_id []) (equal c.secret_access_key [])
      (contains visibilities c.visibility) (equal c.codename []) (equal c.component [])
      (equal c.section [])
