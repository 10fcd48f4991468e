-- ===== src/Cli/Locking.antt =====
-- internal/cli/commands.go: `withRepositoryLock`. A wait without a bound may last for ever, so the
-- rounds of `Acquire` are fuel.
use deb_s.Prelude.{
  ℕ, Bool, not, Option, none, some, [], if◌then◌else◌, Text, pos, negsuc, Result, ok, err, wrapped,
  joined, Exec,
}
use deb_s.Storage.Types.{Store}
use deb_s.Lock.Types.{Owner, Json, Context, Options, Handle}
use deb_s.Lock.{acquire, release}
use deb_s.Cli.Flags.{LockFlags}

-- A procedure that may not end within its fuel.
abbrev pub Run : Type 0 → Type 0 → Type 0
Run S A = S → Option (Result A × S)

-- `ctx` is the context of the command with the timeout of the flags; `new_owner` is the owner that
-- `Acquire` makes, `now` the time. `without_cancel` gives the operations of a store under the context
-- of `Release`, which is not cancelled with the command and ends after 30 seconds.
pub record Locker (S : Type 0) : Type 0 where
  pub json : Json
  pub ctx : Context S
  pub new_owner : Result Owner
  pub now : ℕ
  pub rounds : ℕ
  pub without_cancel : Store S → Store S

abbrev no_owner : Owner
no_owner = record { token = []; user = []; host = []; pid = 0; acquired_at = 0 }

abbrev pub command_lock_options : LockFlags → Text → ℕ → Options
command_lock_options flags cache_control now = record {
  owner = no_owner;
  max_attempts = negsuc 0;
  timeout = flags.timeout;
  initial_backoff = pos 0;
  max_backoff = pos 0;
  cache_control = cache_control;
  now = now;
}

-- `errors.Join(operationErr, releaseErr)`
abbrev pub join_errors : Result (Unit {0}) → Result Bool → Result (Unit {0})
join_errors (ok _) (ok _) = ok tt
join_errors (err e) (ok _) = err (wrapped e)
join_errors (ok _) (err f) = err (wrapped f)
join_errors (err e) (err f) = err (joined e f)

module _ {S : Type 0} (locker : Locker S) (store : Store S) (operation : Exec S (Unit {0})) where
  abbrev pub released : Result (Unit {0}) → Result Bool × S → Option (Result (Unit {0}) × S)
  released r (r', s) = some (join_errors r r', s)

  abbrev pub operated : Handle → Result (Unit {0}) × S → Option (Result (Unit {0}) × S)
  operated handle (r, s) = released r (release (locker.without_cancel store) locker.json handle s)

  abbrev pub when_acquired : Option (Result Handle × S) → Option (Result (Unit {0}) × S)
  when_acquired none = none
  when_acquired (some (err e, s)) = some (err e, s)
  when_acquired (some (ok handle, s)) = operated handle (operation s)

-- `withRepositoryLock`
unfoldable pub with_repository_lock :
    {S : Type 0}
    → Locker S
    → Store S
    → LockFlags
    → Text
    → Text
    → Exec S (Unit {0})
    → Run S (Unit {0})
unfolding acquire release
with_repository_lock locker store flags cache_control codename operation s =
    if not flags.enabled
    then some (operation s)
    else when_acquired locker store operation (
        acquire store locker.json locker.ctx locker.rounds
          (command_lock_options flags cache_control locker.now) locker.new_owner codename s)
