-- ===== src/Cli/Tests.antt =====
-- Runs of internal/cli, on the in-memory store, with an encoding of owners in the place of JSON.
use deb_s.Prelude.{
  ℕ, suc, zero, ◌≡◌, refl, sym, ap, true, false, Option, none, some, List, [], ◌∷◌, ◌++◌, Text,
  codes, Error, Result, ok, err, ok-injective, pos, lookup, equal, insert, failed, bad_owner,
  bad_options, ◌⊎◌, ◌↔◌, All, Exec,
}
use deb_s.Samples.{codec, host}
use deb_s.Digest.{encode_to_string}
use deb_s.Config
use deb_s.Config.{Config}
use deb_s.Storage.Key.{join_key}
use deb_s.Storage.Memory.{MemoryStore, MemoryObject, new_object, memory_store, get}
use deb_s.Storage.Memory.Etag.{object_md5}
use deb_s.Lock.Types.{Owner, IsPlain}
use deb_s.Lock.{lock_options, checked_lock_path}
use deb_s.Lock.Stuck.{IsQuiet}
use deb_s.Query
use deb_s.Query.{Match}
use deb_s.Cli.CommandLine.{Invocation, component_for}
use deb_s.Cli.{Machine, exists_command}
use deb_s.Cli.Flags.{LockFlags, set_list, set_negated}
use deb_s.Cli.Versions.{set_list-append}
use deb_s.Cli.Locking.{Locker, command_lock_options, with_repository_lock}
use deb_s.Cli.Excluded.{with_repository_lock-excludes}
use deb_s.Cli.Exists.{exists_command-found}

versions_lem :
    set_list (codes "1.0, 2.0") (codes "0.9" ∷ []) ≡ codes "0.9" ∷ codes "1.0" ∷ codes "2.0" ∷ []
unfolding set_list
versions_lem = refl

set_list-append_example :
    set_list (codes "1.0" ++ 32 ∷ codes "2.0") []
    ≡ set_list (codes "2.0") (set_list (codes "1.0") [])
set_list-append_example = set_list-append (codes "1.0") (codes "2.0") 32 [] refl

no_lock_lem : set_negated (codes "true") ≡ ok false
unfolding set_negated equal
no_lock_lem = refl

-- A text in front of the rest: each code is raised by one, and zero ends the text.
abbrev written : Text → Text → Text
written [] rest = 0 ∷ rest
written (b ∷ bs) rest = suc b ∷ written bs rest

abbrev before : ℕ → Text × Text → Text × Text
before b (text, rest) = (b ∷ text, rest)

abbrev read : Text → Text × Text
read [] = ([], [])
read (zero ∷ rest) = ([], rest)
read (suc b ∷ rest) = before b (read rest)

read-written : (text rest : Text) → read (written text rest) ≡ (text, rest)
read-written [] rest = refl
read-written (b ∷ bs) rest = ap (before b) (read-written bs rest)

abbrev with_numbers : Text → Text → Text → Text → Option Owner
with_numbers token user computer (pid ∷ acquired_at ∷ []) =
    some
      (record { token = token; user = user; host = computer; pid = pid; acquired_at = acquired_at })
with_numbers token user computer _ = none

abbrev read_owner : Text → Option Owner
read_owner body =
    let token = read body in
    let user = read token.1 in
    let computer = read user.1 in with_numbers token.0 user.0 computer.0 computer.1

abbrev write_owner : Owner → Text
write_owner o = written o.token (written o.user (written o.host (o.pid ∷ o.acquired_at ∷ [])))

read_owner-write_owner : (o : Owner) → read_owner (write_owner o) ≡ some o
read_owner-write_owner o = rw read-written (rw read-written (rw read-written refl))

read_owner-marshal :
    (o : Owner) (body : Text)
    → IsPlain o
    → ◌≡◌ {A = Result Text} (ok (write_owner o)) (ok body)
    → read_owner body ≡ some o
read_owner-marshal o body plain e = rw (sym (ok-injective e)) (read_owner-write_owner o)

abbrev owner_of : Text → Owner
owner_of token = record {
  token = token;
  user = codes "me";
  host = codes "host";
  pid = 7;
  acquired_at = 3;
}

abbrev locker : Locker MemoryStore
locker = record {
  json = record {
    marshal = λ o. ok (write_owner o);
    unmarshal = read_owner;
    unmarshal-marshal = read_owner-marshal;
  };
  ctx = record { check = λ s. (ok tt, s); sleep = λ d s. (ok tt, s) };
  new_owner = ok (owner_of (codes "t1"));
  now = 5;
  rounds = 3;
  without_cancel = λ store. memory_store codec none 1;
}

abbrev flags : LockFlags
flags = record { enabled = true; timeout = pos 0 }

quiet : IsQuiet locker.ctx
quiet = record { check = λ s. refl; sleep = λ d s. refl }

abbrev path : Text
path = codes "dists/stable/lockfile"

abbrev lock_of : Owner → MemoryObject
lock_of owner =
    new_object codec 1 path (write_owner owner) (lock_options (command_lock_options flags [] 5))

abbrev taken : MemoryStore
taken = record { prefix = []; objects = (path, lock_of (owner_of (codes "t2"))) ∷ [] }

path_is_safe : checked_lock_path (codes "stable") ≡ ok path
unfolding checked_lock_path
path_is_safe = refl

path_is_valid : join_key [] path ≡ ok path
unfolding join_key
path_is_valid = refl

lock_is_there : lookup path taken.objects ≡ some (lock_of (owner_of (codes "t2")))
unfolding lookup equal
lock_is_there = refl

digests_differ :
    equal
      (object_md5 (lock_of (owner_of (codes "t2"))).info)
      (encode_to_string (codec.md5_sum (write_owner (owner_of (codes "t1")))))
    ≡ false
unfolding equal object_md5 encode_to_string new_object insert lookup
digests_differ = refl

-- An operation that would empty the store.
abbrev wipe : Exec MemoryStore (Unit {0})
wipe s = (ok tt, record s { objects = [] })

with_repository_lock-excludes_example :
    (with_repository_lock locker (memory_store codec none 1) flags [] (codes "stable") wipe taken
      ≡ none)
    ⊎ ((e : Error) × (with_repository_lock locker
            (memory_store codec none 1)
            flags
            []
            (codes "stable")
            wipe
            taken
          ≡ some (err e, taken)))
with_repository_lock-excludes_example =
    with_repository_lock-excludes codec 1 locker quiet flags refl [] (codes "stable") path path
      path_is_safe (owner_of (codes "t1")) refl (write_owner (owner_of (codes "t1"))) refl taken
      path_is_valid (lock_of (owner_of (codes "t2"))) lock_is_there digests_differ wipe

abbrev machine : Machine MemoryStore
machine = record {
  host = host;
  new_store = λ cfg. ok (memory_store codec none 1);
  gpg = λ signer release. err (failed bad_options);
  glob = λ pattern. ok (pattern ∷ []);
  inspect = λ filename. err (failed bad_owner);
  locker = locker;
}

abbrev open_quote : Invocation
open_quote = record {
  cfg = record Config.new { sign = true; gpg_options = codes "--a 'b" };
  changed = λ name. false;
  lock = flags;
  architecture = [];
  versions = [];
  preserve_versions = false;
  fail_if_exists = false;
  skip_package_upload = false;
  fix_manifests = false;
  long = false;
}

abbrev one_missing : List Match
one_missing = record { name = codes "a"; version = codes "1"; is_found = false } ∷ []

nothing_is_there :
    Query.exists
      (memory_store codec none 1)
      host
      open_quote.cfg.codename
      (component_for open_quote.cfg)
      (codes "amd64")
      (codes "1")
      (codes "a" ∷ [])
      taken
    ≡ (ok one_missing, taken)
unfolding Query.exists component_for get lookup equal join_key
nothing_is_there = refl

exists_command-found_example :
    (exists_command machine open_quote (codes "a" ∷ []) (codes "1") (codes "amd64") taken
      ≡ some (ok tt, taken))
    ↔ All (λ (m : Match). m.is_found ≡ true) one_missing
exists_command-found_example =
    exists_command-found machine open_quote (memory_store codec none 1) (codes "a" ∷ []) (codes "1")
      (codes "amd64") taken taken one_missing refl nothing_is_there
