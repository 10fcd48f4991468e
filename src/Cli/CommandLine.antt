-- ===== src/Cli/CommandLine.antt =====
-- internal/cli/commands.go: the command line, and what the commands make of its flags before they run.
use deb_s.Prelude.{
  Bool, true, false, not, ◌&&◌, Option, none, some, List, [], ◌∷◌, if◌then◌else◌, Text, codes,
  equal, any, Error, Result, ok, err, failed, wrapped, wrap, and_then, no_packages_found,
  no_packages_deleted, no_architecture_set, packages_missing, bad_architecture,
}
use deb_s.Config.{Config, validate_architecture}
use deb_s.Signing.{parse_options}
use deb_s.Signing.Gpg.{GpgSigner}
use deb_s.Query.{Match}
use deb_s.Cli.Flags.{LockFlags}

-- What the command line comes to: the flags that are shared, those of the commands, and the arguments.
-- `changed` says which flags were given.
pub record Invocation : Type 0 where
  pub cfg : Config
  pub changed : Text → Bool
  pub lock : LockFlags
  pub architecture : Text
  pub versions : List Text
  pub preserve_versions : Bool
  pub fail_if_exists : Bool
  pub skip_package_upload : Bool
  pub fix_manifests : Bool
  pub long : Bool

-- `componentFor`
unfoldable pub component_for : Config → Text
unfolding equal
component_for cfg = if equal cfg.section [] then cfg.component else cfg.section

-- `byHashOption`
unfoldable pub by_hash_option : Invocation → Option Bool
by_hash_option inv =
    if not (inv.changed (codes "by-hash")) && not (inv.changed (codes "no-by-hash"))
    then none
    else some inv.cfg.by_hash

abbrev when_changed : Bool → Text → Option Text
when_changed given value = if given then some value else none

-- `originSuiteOverrides`
unfoldable pub origin_suite_overrides : Invocation → Option Text × Option Text
origin_suite_overrides inv = (
  when_changed (inv.changed (codes "origin")) inv.cfg.origin,
  when_changed (inv.changed (codes "suite")) inv.cfg.suite,
)

-- `configuredSigner`
unfoldable pub configured_signer : Config → Result (Option GpgSigner)
unfolding parse_options
configured_signer cfg =
    if not cfg.sign
    then ok none
    else and_then (wrap (parse_options cfg.gpg_options)) λ options. ok (
        some (record {
          provider = cfg.gpg_provider;
          keys = cfg.sign_keys;
          extra_options = options;
          home_dir = [];
          env = [];
        }))

-- `validateArchitecture`, as the commands call it before they run.
unfoldable pub check_architecture_flag : Text → Result (Unit {0})
unfolding validate_architecture
check_architecture_flag architecture =
    if validate_architecture architecture then ok tt else err (failed bad_architecture)

-- `PreRunE` of copy and delete.
unfoldable pub require_architecture : Text → Result (Unit {0})
unfolding check_architecture_flag equal
require_architecture architecture =
    if equal architecture []
    then err (failed no_architecture_set)
    else check_architecture_flag architecture

abbrev last_or : Text → List Text → Text
last_or default [] = default
last_or default (t ∷ []) = t
last_or default (t ∷ u ∷ ts) = last_or default (u ∷ ts)

-- `architectureAt` and `architectureAtLeast`, behind the check on the number of arguments.
unfoldable pub architecture_last : List Text → Result (Unit {0})
unfolding check_architecture_flag
architecture_last args = check_architecture_flag (last_or [] args)

-- `errors.Is(err, manage.ErrNoPackagesFound)` and `errors.Is(err, manage.ErrNoPackagesDeleted)`
abbrev pub is_no_packages_found : Error → Bool
is_no_packages_found no_packages_found = true
is_no_packages_found (wrapped e) = is_no_packages_found e
is_no_packages_found _ = false

abbrev pub is_no_packages_deleted : Error → Bool
is_no_packages_deleted no_packages_deleted = true
is_no_packages_deleted (wrapped e) = is_no_packages_deleted e
is_no_packages_deleted _ = false

-- What exists comes to, by its matches.
unfoldable pub all_found : List Match → Result (Unit {0})
unfolding any
all_found matches =
    if any (λ (m : Match). not m.is_found) matches then err (failed packages_missing) else ok tt
