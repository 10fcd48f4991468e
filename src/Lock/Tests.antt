-- ===== src/Lock/Tests.antt =====
-- Runs of the lock on the in-memory store, with an encoding of owners in the place of JSON.
use deb_s.Prelude.{
  ℕ, suc, zero, ◌*◌, ◌≡◌, refl, sym, ap, Result, ok-injective, arith, true, false, Option, none,
  some, [], ◌∷◌, Text, codes, ok, err, pos, lookup, equal, insert, failed, bad_owner,
}
use deb_s.Samples.{codec}
use deb_s.Digest.{encode_to_string}
use deb_s.Storage.Key.{join_key}
use deb_s.Storage.Memory.{MemoryStore, MemoryObject, new_object, memory_store}
use deb_s.Storage.Memory.Etag.{object_md5}
use deb_s.Lock.Types.{Owner, IsPlain, Json, Context, Options, Handle, held}
use deb_s.Lock.{acquire, try_acquire, release, lock_options}
use deb_s.Lock.Backoff.{retry_delay}
use deb_s.Lock.Delays.{twofold, smaller, retry_delay-pos}
use deb_s.Lock.Rounds.{IsSome, acquire-IsSome}
use deb_s.Lock.Ownership.{OwnOnly, release-OwnOnly}
use deb_s.Lock.Exclusion.{IsRefused, try_acquire-IsRefused}
use deb_s.Lock.RoundTrip.{try_acquire-release}

-- A text in front of the rest: each code is raised by one, and zero ends the text.
abbrev written : Text → Text → Text
written [] rest = 0 ∷ rest
written (b ∷ bs) rest = suc b ∷ written bs rest

abbrev before : ℕ → Text × Text → Text × Text
before b (text, rest) = (b ∷ text, rest)

abbrev read : Text → Text × Text
read [] = ([], [])
read (zero ∷ rest) = ([], rest)
read (suc b ∷ rest) = before b (read rest)

read-written : (text rest : Text) → read (written text rest) ≡ (text, rest)
read-written [] rest = refl
read-written (b ∷ bs) rest = ap (before b) (read-written bs rest)

abbrev with_numbers : Text → Text → Text → Text → Option Owner
with_numbers token user host (pid ∷ acquired_at ∷ []) =
    some (record { token = token; user = user; host = host; pid = pid; acquired_at = acquired_at })
with_numbers token user host _ = none

abbrev read_owner : Text → Option Owner
read_owner body =
    let token = read body in
    let user = read token.1 in let host = read user.1 in with_numbers token.0 user.0 host.0 host.1

abbrev write_owner : Owner → Text
write_owner o = written o.token (written o.user (written o.host (o.pid ∷ o.acquired_at ∷ [])))

read_owner-write_owner : (o : Owner) → read_owner (write_owner o) ≡ some o
read_owner-write_owner o = rw read-written (rw read-written (rw read-written refl))

read_owner-marshal :
    (o : Owner) (body : Text)
    → IsPlain o
    → ◌≡◌ {A = Result Text} (ok (write_owner o)) (ok body)
    → read_owner body ≡ some o
read_owner-marshal o body plain e = rw (sym (ok-injective e)) (read_owner-write_owner o)

abbrev json : Json
json = record {
  marshal = λ o. ok (write_owner o);
  unmarshal = read_owner;
  unmarshal-marshal = read_owner-marshal;
}

abbrev patient : Context MemoryStore
patient = record { check = λ s. (ok tt, s); sleep = λ d s. (ok tt, s) }

abbrev owner_of : Text → Owner
owner_of token = record {
  token = token;
  user = codes "me";
  host = codes "host";
  pid = 7;
  acquired_at = 3;
}

t1-IsPlain : IsPlain (owner_of (codes "t1"))
t1-IsPlain = record {
  token = (omega arith, (omega arith, tt));
  user = (omega arith, (omega arith, tt));
  host = (omega arith, (omega arith, (omega arith, (omega arith, tt))));
  pid = omega arith;
}

abbrev options : Options
options = record {
  owner = owner_of (codes "t1");
  max_attempts = pos 2;
  timeout = pos 0;
  initial_backoff = pos 100;
  max_backoff = pos 1000;
  cache_control = [];
  now = 5;
}

abbrev path : Text
path = codes "dists/stable/lockfile"

abbrev free : MemoryStore
free = record { prefix = []; objects = [] }

path_is_valid : join_key [] path ≡ ok path
unfolding join_key
path_is_valid = refl

abbrev lock_of : Owner → MemoryObject
lock_of owner = new_object codec 1 path (write_owner owner) (lock_options options)

abbrev taken : MemoryStore
taken = record { prefix = []; objects = (path, lock_of (owner_of (codes "t2"))) ∷ [] }

lock_is_there : lookup path taken.objects ≡ some (lock_of (owner_of (codes "t2")))
unfolding lookup equal
lock_is_there = refl

digests_differ :
    equal
      (object_md5 (lock_of (owner_of (codes "t2"))).info)
      (encode_to_string (codec.md5_sum (write_owner (owner_of (codes "t1")))))
    ≡ false
unfolding equal object_md5 encode_to_string new_object insert lookup
digests_differ = refl

nothing_there : lookup path free.objects ≡ none
unfolding lookup
nothing_there = refl

has_token : equal (codes "t1") [] ≡ false
unfolding equal
has_token = refl

abbrev foreign : Handle
foreign = record { path = path; owner = owner_of (codes "t1"); etag = codes "ff"; released = false }

retry_delay-pos_example : retry_delay (pos 100) (pos 1000) 4 ≡ pos (smaller (100 * twofold 3) 1000)
retry_delay-pos_example = retry_delay-pos 100 1000 3 (omega arith)

acquire-IsSome_example : IsSome (
    acquire
      (memory_store codec none 1)
      json
      patient
      3
      options
      (err (failed bad_owner))
      (codes "stable")
      taken)
acquire-IsSome_example =
    acquire-IsSome (memory_store codec none 1) json patient options (err (failed bad_owner))
      (codes "stable") 1 3 taken refl (omega arith)

release-OwnOnly_example :
    OwnOnly codec 1 json foreign taken path path_is_valid
      (release (memory_store codec none 1) json foreign taken).1
release-OwnOnly_example = release-OwnOnly codec 1 json foreign taken path path_is_valid

try_acquire-IsRefused_example :
    IsRefused codec 1 json patient options path
      (owner_of (codes "t1"))
      (write_owner (owner_of (codes "t1")))
      (try_acquire
        (memory_store codec none 1)
        json
        patient
        options
        path
        (owner_of (codes "t1"))
        (write_owner (owner_of (codes "t1")))
        1
        taken).0
try_acquire-IsRefused_example =
    try_acquire-IsRefused codec 1 json patient options path (owner_of (codes "t1"))
      (write_owner (owner_of (codes "t1"))) taken path path_is_valid 1
      (lock_of (owner_of (codes "t2"))) refl lock_is_there digests_differ

try_acquire-release_example :
    (h : Handle) × (t : MemoryStore) × (u : MemoryStore) × (try_acquire
        (memory_store codec none 1)
        json
        patient
        options
        path
        (owner_of (codes "t1"))
        (write_owner (owner_of (codes "t1")))
        1
        free
      ≡ (ok (held h), t))
    × (release (memory_store codec none 1) json h t ≡ (ok true, u))
    × ((q : Text) → lookup q u.objects ≡ lookup q free.objects)
try_acquire-release_example =
    try_acquire-release codec 1 json options path (owner_of (codes "t1")) t1-IsPlain
      (write_owner (owner_of (codes "t1"))) refl free path path_is_valid has_token nothing_there
      patient 1 refl
