-- ===== src/Cli.antt =====
-- internal/cli/commands.go: what the commands do between the command line and the other packages.
-- The flag library and what is printed while a command runs are left out.
pub mod Flags
pub mod CommandLine
pub mod Output
pub mod Locking
pub mod Versions
pub mod Excluded
pub mod Exists
mod Tests
use deb_s.Prelude.{
  Bool, Option, none, some, List, [], if◌then◌else◌, Text, codes, Error, Result, ok, err, failed,
  wrapped, and_then, Exec, package_not_found, no_package_found, nothing_found, nothing_deleted,
}
use deb_s.Host.{Host}
use deb_s.Storage.Types.{Store}
use deb_s.Config.{Config}
use deb_s.Apt.Package.{Package}
use deb_s.Apt.Render.{render}
use deb_s.Apt.Release.Types.{ReleaseSigner}
use deb_s.Signing.Gpg.{GpgSigner}
use deb_s.Upload.{UploadOptions, upload}
use deb_s.Query
use deb_s.Manage
use deb_s.Manage.{CopyOptions, DeleteOptions}
use deb_s.Maintenance.Verify.{VerifyOptions, verify}
use deb_s.Maintenance.Clean.{clean_pool}
use Output.{list_output}
use Locking.{Run, Locker, with_repository_lock}
use CommandLine.{
  Invocation, component_for, by_hash_option, origin_suite_overrides, configured_signer,
  is_no_packages_found, is_no_packages_deleted, all_found,
}

-- What a command takes from the machine. `gpg` is the signer that runs gpg.
pub record Machine (S : Type 0) : Type 0 where
  pub host : Host
  pub new_store : Config → Result (Store S)
  pub gpg : GpgSigner → ReleaseSigner
  pub glob : Text → Result (List Text)
  pub inspect : Text → Result Package
  pub locker : Locker S

module _ {S : Type 0} (machine : Machine S) (inv : Invocation) where
  abbrev with_gpg : Option GpgSigner → Option ReleaseSigner
  with_gpg none = none
  with_gpg (some signer) = some (machine.gpg signer)

  abbrev stopped_by : {A : Type 0} → Error → Run S A
  stopped_by e s = some (err e, s)

  abbrev on_store : {A : Type 0} → Result (Store S) → (Store S → Run S A) → Run S A
  on_store (ok store) run = run store
  on_store (err e) run = stopped_by e

  abbrev signed_by :
      Result (Option GpgSigner)
      → (Option ReleaseSigner → Store S → Run S (Unit {0}))
      → Run S (Unit {0})
  signed_by (ok signer) run = on_store (machine.new_store inv.cfg) (run (with_gpg signer))
  signed_by (err e) run = stopped_by e

  abbrev at_once : {A : Type 0} → Exec S A → Run S A
  at_once m s = some (m s)

  abbrev locked : Store S → Text → Exec S (Unit {0}) → Run S (Unit {0})
  locked store codename operation =
      with_repository_lock machine.locker store inv.lock inv.cfg.cache_control codename operation

  abbrev pub upload_options : Option ReleaseSigner → UploadOptions
  upload_options signer = record {
    codename = inv.cfg.codename;
    component = component_for inv.cfg;
    origin = (origin_suite_overrides inv).0;
    suite = (origin_suite_overrides inv).1;
    architecture = inv.architecture;
    architecture_set = inv.changed (codes "arch");
    preserve_versions = inv.preserve_versions;
    fail_if_exists = inv.fail_if_exists;
    skip_package_upload = inv.skip_package_upload;
    cache_control = inv.cfg.cache_control;
    by_hash = by_hash_option inv;
    signer = signer;
    now = none;
  }

  -- `RunE` of upload.
  unfoldable pub upload_command : List Text → Run S (Unit {0})
  unfolding configured_signer component_for origin_suite_overrides by_hash_option
      with_repository_lock upload
  upload_command args = signed_by (configured_signer inv.cfg) λ signer store.
      locked store inv.cfg.codename
        (upload store machine.host (upload_options signer) machine.glob machine.inspect args)

  abbrev list_failed : {A B : Type 0} → (A → Result B) → Result A × S → Option (Result B × S)
  list_failed f (r, s) = some (and_then r f, s)

  -- `RunE` of list: what it prints.
  unfoldable pub list_command : Run S Text
  unfolding component_for Query.list list_output
  list_command = on_store (machine.new_store inv.cfg) λ store s.
      list_failed (list_output inv.long inv.cfg.codename) (
        Query.list store machine.host
          (record {
            codename = inv.cfg.codename;
            component = component_for inv.cfg;
            architecture = inv.architecture;
          })
          s)

  abbrev shown_as : Error → Error
  shown_as package_not_found = failed no_package_found
  shown_as (wrapped e) = shown_as e
  shown_as e = e

  abbrev record_of : Result Package → Result Text
  record_of (err e) = err (shown_as e)
  record_of (ok pack) = if inv.cfg.quiet then ok [] else render pack inv.cfg.codename

  abbrev shown : Result Package × S → Option (Result Text × S)
  shown (r, s) = some (record_of r, s)

  -- `RunE` of show, with its three arguments.
  unfoldable pub show_command : Text → Text → Text → Run S Text
  unfolding component_for Query.show render
  show_command name version architecture = on_store (machine.new_store inv.cfg) λ store s. shown (
      Query.show store machine.host inv.cfg.codename (component_for inv.cfg) architecture name
        version s)

  -- `RunE` of exists: the matches it prints, and whether one is missing.
  unfoldable pub exists_command : List Text → Text → Text → Run S (Unit {0})
  unfolding component_for Query.exists all_found
  exists_command names version architecture = on_store (machine.new_store inv.cfg) λ store s.
      list_failed all_found (
        Query.exists store machine.host inv.cfg.codename (component_for inv.cfg) architecture
          version names s)

  abbrev translated : (Error → Bool) → Error → Result (Unit {0}) × S → Result (Unit {0}) × S
  translated is_it e (ok _, s) = (ok tt, s)
  translated is_it e (err f, s) = (err (if is_it f then e else f), s)

  abbrev pub copy_options : Text → Text → Text → Option ReleaseSigner → CopyOptions
  copy_options name codename component signer = record {
    source_codename = inv.cfg.codename;
    source_component = component_for inv.cfg;
    destination_codename = codename;
    destination_component = component;
    architecture = inv.architecture;
    package_name = name;
    versions = inv.versions;
    versions_set = inv.changed (codes "versions");
    preserve_versions = inv.preserve_versions;
    fail_if_exists = inv.fail_if_exists;
    cache_control = inv.cfg.cache_control;
    by_hash = by_hash_option inv;
    signer = signer;
  }

  -- `RunE` of copy, with its three arguments.
  unfoldable pub copy_command : Text → Text → Text → Run S (Unit {0})
  unfolding configured_signer component_for by_hash_option with_repository_lock Manage.copy
  copy_command name codename component = signed_by (configured_signer inv.cfg) λ signer store.
      locked store codename λ s.
        translated is_no_packages_found (failed nothing_found)
          (Manage.copy store machine.host (copy_options name codename component signer) s)

  abbrev pub delete_options : Text → Option ReleaseSigner → DeleteOptions
  delete_options name signer = record {
    codename = inv.cfg.codename;
    component = component_for inv.cfg;
    architecture = inv.architecture;
    package_name = name;
    versions = inv.versions;
    versions_set = inv.changed (codes "versions");
    origin = (origin_suite_overrides inv).0;
    suite = (origin_suite_overrides inv).1;
    cache_control = inv.cfg.cache_control;
    by_hash = by_hash_option inv;
    signer = signer;
  }

  -- `RunE` of delete.
  unfoldable pub delete_command : Text → Run S (Unit {0})
  unfolding configured_signer component_for origin_suite_overrides by_hash_option
      with_repository_lock Manage.delete
  delete_command name = signed_by (configured_signer inv.cfg) λ signer store.
      locked store inv.cfg.codename λ s.
        translated is_no_packages_deleted (failed nothing_deleted)
          (Manage.delete store machine.host (delete_options name signer) s)

  abbrev pub verify_options : Option ReleaseSigner → VerifyOptions
  verify_options signer = record {
    codename = inv.cfg.codename;
    component = component_for inv.cfg;
    fix_manifests = inv.fix_manifests;
    origin = (origin_suite_overrides inv).0;
    suite = (origin_suite_overrides inv).1;
    cache_control = inv.cfg.cache_control;
    by_hash = by_hash_option inv;
    signer = signer;
  }

  abbrev verdict_of : {A : Type 0} → (A × Result (Unit {0})) × S → Result (Unit {0}) × S
  verdict_of ((_, r), s) = (r, s)

  -- `RunE` of verify; it takes no lock.
  unfoldable pub verify_command : Run S (Unit {0})
  unfolding configured_signer component_for origin_suite_overrides by_hash_option verify
  verify_command =
      signed_by (configured_signer inv.cfg) λ signer store.
        at_once λ s. verdict_of (verify store machine.host (verify_options signer) s)

  -- `RunE` of clean.
  unfoldable pub clean_command : Run S (Unit {0})
  unfolding with_repository_lock clean_pool
  clean_command = on_store (machine.new_store inv.cfg) λ store.
      locked store inv.cfg.codename
        λ s. verdict_of (clean_pool store machine.host inv.cfg.codename s)
