-- ===== src/Cli/Excluded.antt =====
-- internal/cli/commands.go: a command that locks does nothing while another holds the lock.
use deb_s.Prelude.{
  ℕ, ◌≡◌, refl, true, false, none, some, Option, Text, equal, lookup, Error, Result, ok, err, Exec,
  inl, inr, ◌⊎◌,
}
use deb_s.Digest.{Codec, encode_to_string}
use deb_s.Storage.Key.{join_key}
use deb_s.Storage.Memory.{MemoryStore, MemoryObject, memory_store}
use deb_s.Storage.Memory.Etag.{object_md5}
use deb_s.Lock.Types.{Owner, Handle}
use deb_s.Lock.{acquire, checked_lock_path, options_with_defaults}
use deb_s.Lock.Stuck.{IsQuiet, IsLockless, acquire_loop-IsLockless}
use deb_s.Cli.Flags.{LockFlags}
use deb_s.Cli.Locking.{Locker, command_lock_options, when_acquired, with_repository_lock}

module _ (c : Codec) (now : ℕ) (locker : Locker MemoryStore) (quiet : IsQuiet locker.ctx)
    (flags : LockFlags) (locks : flags.enabled ≡ true) (cache_control codename path p : Text)
    (safe : checked_lock_path codename ≡ ok path) (owner : Owner)
    (owned : locker.new_owner ≡ ok owner) (body : Text)
    (encoded : locker.json.marshal owner ≡ ok body) (s : MemoryStore)
    (valid : join_key s.prefix path ≡ ok p) (other : MemoryObject)
    (there : lookup p s.objects ≡ some other)
    (differs : equal (object_md5 other.info) (encode_to_string (c.md5_sum body)) ≡ false) where
  acquire-IsLockless : IsLockless s (
      acquire
        (memory_store c none now)
        locker.json
        locker.ctx
        locker.rounds
        (command_lock_options flags cache_control locker.now)
        locker.new_owner
        codename
        s)
  unfolding acquire equal
  acquire-IsLockless = rw safe (
      rw owned (
        rw encoded (
          acquire_loop-IsLockless c now locker.json locker.ctx quiet
            (options_with_defaults (command_lock_options flags cache_control locker.now)) path owner
            body s p valid other there differs locker.rounds 1)))

  when_acquired-none :
      (operation : Exec MemoryStore (Unit {0})) (x : Option (Result Handle × MemoryStore))
      → IsLockless s x
      → (when_acquired locker (memory_store c none now) operation x ≡ none)
        ⊎ ((e : Error) × (when_acquired locker (memory_store c none now) operation x
              ≡ some (err e, s)))
  when_acquired-none operation x (inl e) = rw e (inl refl)
  when_acquired-none operation x (inr (f, e)) = rw e (inr (f, refl))

  -- On MemoryStore, with a context that leaves the store as it is, when a command locks a
  -- codename with a safe path that holds an object whose digest is not that of the lock it would
  -- write, its operation has no effect: however many rounds it waits, there is no result yet, or
  -- an error and the store as it was.
  pub with_repository_lock-excludes :
      (operation : Exec MemoryStore (Unit {0}))
      → (with_repository_lock locker
            (memory_store c none now)
            flags
            cache_control
            codename
            operation
            s
          ≡ none)
        ⊎ ((e : Error) × (with_repository_lock locker
                (memory_store c none now)
                flags
                cache_control
                codename
                operation
                s
              ≡ some (err e, s)))
  unfolding with_repository_lock
  with_repository_lock-excludes operation =
      rw locks (when_acquired-none operation _ acquire-IsLockless)
