-- ===== src/Storage/S3/Setup.antt =====
-- internal/storage/s3.go: `NewS3Store` and its checks. `parse` is `url.Parse`, `load` is what loading
-- the configuration of the SDK comes to.
use deb_s.Prelude.{
  Bool, not, ◌&&◌, ◌||◌, Option, none, some, [], if◌then◌else◌, Text, codes, equal, Result, ok, err,
  failed, bad_endpoint, bad_proxy, unknown_visibility, bad_config, wrap, and_then,
}
use deb_s.Config.{Config, Verdict, valid, validate}
use deb_s.Storage.Key.{normalize_prefix}
use deb_s.Storage.S3.Inputs.{S3Store, new_s3_store}

pub record Url : Type 0 where
  pub scheme : Text
  pub host : Text

-- What the client of the SDK is made from.
pub record Connection : Type 0 where
  pub region : Text
  pub credentials : Option (Text × Text × Text)
  pub checksum_when_required : Bool
  pub proxy : Option Url
  pub use_path_style : Bool
  pub endpoint : Option Text

unfoldable pub visibility_acl : Text → Result Text
unfolding equal
visibility_acl visibility =
    if equal visibility (codes "public")
    then ok (codes "public-read")
    else if equal visibility (codes "private")
    then ok (codes "private")
    else if equal visibility (codes "authenticated")
    then ok (codes "authenticated-read")
    else if equal visibility (codes "bucket_owner")
    then ok (codes "bucket-owner-full-control")
    else if equal visibility (codes "nil")
    then ok []
    else err (failed unknown_visibility)

-- The conditions on an address that both checks share.
unfoldable pub is_web_address : Url → Bool
unfolding equal
is_web_address u =
    (equal u.scheme (codes "http") || equal u.scheme (codes "https")) && not (equal u.host [])

abbrev pub checked_config : Verdict → Result (Unit {0})
checked_config valid = ok tt
checked_config _ = err (failed bad_config)

abbrev credentials_of : Config → Option (Text × Text × Text)
credentials_of cfg =
    if equal cfg.access_key_id []
    then none
    else some (cfg.access_key_id, cfg.secret_access_key, cfg.session_token)

abbrev endpoint_of : Config → Option Text
endpoint_of cfg = if equal cfg.endpoint [] then none else some cfg.endpoint

abbrev connection : Config → Option Url → Connection
connection cfg proxy = record {
  region = cfg.s3_region;
  credentials = credentials_of cfg;
  checksum_when_required = cfg.checksum_when_required;
  proxy = proxy;
  use_path_style = cfg.force_path_style;
  endpoint = endpoint_of cfg;
}

module _ (parse : Text → Option Url) where
  abbrev checked_url : Option Url → Option Url
  checked_url none = none
  checked_url (some u) = if is_web_address u then some u else none

  abbrev required_url : Option Url → Result Url
  required_url none = err (failed bad_endpoint)
  required_url (some u) = ok u

  -- `validateEndpoint`
  unfoldable pub validate_endpoint : Text → Result Url
  unfolding is_web_address
  validate_endpoint endpoint = required_url (checked_url (parse endpoint))

  abbrev without_url : Result Url → Result (Unit {0})
  without_url (ok _) = ok tt
  without_url (err e) = err e

  abbrev checked_endpoint : Text → Result (Unit {0})
  checked_endpoint endpoint =
      if equal endpoint [] then ok tt else without_url (validate_endpoint endpoint)

  abbrev required_proxy : Option Url → Result (Option Url)
  required_proxy none = err (failed bad_proxy)
  required_proxy (some u) = ok (some u)

  -- `proxyHTTPClient`: the proxy that the client uses.
  unfoldable pub proxy_http_client : Text → Result (Option Url)
  unfolding is_web_address
  proxy_http_client proxy = required_proxy (checked_url (parse proxy))

  -- `NewS3Store`
  unfoldable pub new_store :
      (Connection → Result (Unit {0})) → Config → Result (Connection × S3Store)
  unfolding validate normalize_prefix validate_endpoint proxy_http_client visibility_acl
      new_s3_store equal
  new_store load cfg = and_then (checked_config (validate cfg)) λ _.
      and_then (normalize_prefix cfg.prefix) λ prefix. and_then (checked_endpoint cfg.endpoint) λ _.
        and_then (if equal cfg.proxy_uri [] then ok none else proxy_http_client cfg.proxy_uri)
          λ proxy. and_then (wrap (load (connection cfg proxy))) λ _.
            and_then (visibility_acl cfg.visibility)
              λ acl. ok (connection cfg proxy, new_s3_store cfg.bucket prefix acl cfg.encryption)
