-- ===== src/Config.antt =====
-- internal/config/config.go: the options that all commands share, and their validation.
mod Accepted
mod Tests
use deb_s.Prelude.{
  Bool, true, false, not, ◌&&◌, ◌||◌, ◌==◌, leb, List, [], ◌∷◌, if◌then◌else◌, Text, codes, equal,
  contains, is_digit,
}

pub record Config : Type 0 where
  pub bucket : Text
  pub prefix : Text
  pub origin : Text
  pub suite : Text
  pub codename : Text
  pub component : Text
  pub section : Text
  pub access_key_id : Text
  pub secret_access_key : Text
  pub session_token : Text
  pub endpoint : Text
  pub s3_region : Text
  pub force_path_style : Bool
  pub proxy_uri : Text
  pub visibility : Text
  pub sign : Bool
  pub sign_keys : List Text
  pub gpg_options : Text
  pub gpg_provider : Text
  pub encryption : Bool
  pub quiet : Bool
  pub cache_control : Text
  pub by_hash : Bool
  pub checksum_when_required : Bool

abbrev pub new : Config
new = record {
  bucket = [];
  prefix = [];
  origin = [];
  suite = [];
  codename = codes "stable";
  component = codes "main";
  section = [];
  access_key_id = [];
  secret_access_key = [];
  session_token = [];
  endpoint = [];
  s3_region = codes "us-east-1";
  force_path_style = false;
  proxy_uri = [];
  visibility = codes "public";
  sign = false;
  sign_keys = [];
  gpg_options = [];
  gpg_provider = codes "gpg";
  encryption = false;
  quiet = false;
  cache_control = [];
  by_hash = false;
  checksum_when_required = false;
}

-- What `Validate` finds wrong.
pub data Verdict : Type 0 where
  valid no_bucket half_credentials bad_visibility no_codename no_component : Verdict

abbrev pub visibilities : List Text
visibilities =
    codes "public"
    ∷ codes "private"
    ∷ codes "authenticated"
    ∷ codes "bucket_owner"
    ∷ codes "nil"
    ∷ []

abbrev pub differ : Bool → Bool → Bool
differ true b = not b
differ false b = b

unfoldable pub validate : Config → Verdict
unfolding equal contains
validate c =
    if equal c.bucket []
    then no_bucket
    else if differ (equal c.access_key_id []) (equal c.secret_access_key [])
    then half_credentials
    else if not (contains visibilities c.visibility)
    then bad_visibility
    else if equal c.codename []
    then no_codename
    else if equal c.component [] && equal c.section []
    then no_component
    else valid

abbrev pub in_architecture : Bool → Text → Bool
in_architecture dash [] = true
in_architecture dash (c ∷ cs) =
    ((leb b'a' c && leb c b'z') || is_digit c || (dash && c == b'-')) && in_architecture true cs

-- `ValidateArchitecture`: the empty text, or `architecturePattern`.
unfoldable pub validate_architecture : Text → Bool
validate_architecture architecture = in_architecture false architecture
