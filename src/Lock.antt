-- ===== src/Lock.antt =====
-- internal/lock/lock.go: the repository lock, an object that one process creates and deletes. The
-- reports on waiting are left out.
pub mod Types
pub mod Backoff
pub mod Delays
pub mod Rounds
pub mod Ownership
pub mod Exclusion
pub mod Stuck
pub mod RoundTrip
mod Tests
use deb_s.Prelude.{
  ℕ, suc, zero, ◌+◌, Bool, true, false, not, ◌&&◌, ◌||◌, ◌==◌, Option, none, some, List, [], ◌∷◌,
  ◌++◌, if◌then◌else◌, Text, codes, equal, cut, trim, is_space, ℤ, pos, negsuc, lt_int, Error,
  Result, ok, err, failed, bad_owner, unsafe_codename, locked, not_owner, unsupported, wrapped,
  wrap, is_not_found, is_conflict, and_then, Exec, pure, raise, lift, wrapping, caught, ◌>>=◌, ◌>>◌,
}
use deb_s.GoPath.{clean, join_path}
use deb_s.Storage.Types.{ObjectInfo, PutOptions, Store}
use deb_s.Codename.{is_unsafe}
use Types.{Owner, Json, Context, Options, Handle, Turn, held, again, given_up}
use Backoff.{retry_delay}

-- `LockPath`
unfoldable pub lock_path : Text → Text
unfolding join_path
lock_path codename = join_path (codes "dists" ∷ codename ∷ codes "lockfile" ∷ [])

unfoldable pub checked_lock_path : Text → Result Text
unfolding clean is_unsafe lock_path
checked_lock_path codename =
    if is_unsafe (clean codename)
    then err (failed unsafe_codename)
    else ok (lock_path (clean codename))

-- `optionsWithDefaults`; durations are in nanoseconds.
unfoldable pub options_with_defaults : Options → Options
options_with_defaults o =
    let initial = if lt_int (pos 0) o.initial_backoff then o.initial_backoff else pos 100000000 in
    let maximum = if lt_int (pos 0) o.max_backoff then o.max_backoff else pos 10000000000 in
    record o {
      max_attempts = elim o.max_attempts [
        | pos zero ↦ if lt_int (pos 0) o.timeout then o.max_attempts else pos 60
        | _ ↦ o.max_attempts
      ];
      initial_backoff = initial;
      max_backoff = (if lt_int maximum initial then initial else maximum);
    }

-- The owner of the options, or a new one where it has no token.
abbrev pub chosen_owner : Options → Result Owner → Result Owner
chosen_owner o new_owner =
    if equal o.owner.token []
    then new_owner
    else ok (record o.owner {
      acquired_at = (if o.owner.acquired_at == 0 then o.now else o.owner.acquired_at);
    })

abbrev pub legacy_owner : Text → Option (Text × Text) → Result Owner
legacy_owner legacy none = err (failed bad_owner)
legacy_owner legacy (some ([], host)) = err (failed bad_owner)
legacy_owner legacy (some (user, [])) = err (failed bad_owner)
legacy_owner legacy (some (c ∷ cs, d ∷ ds)) =
    ok (record { token = legacy; user = c ∷ cs; host = d ∷ ds; pid = 0; acquired_at = 0 })

abbrev pub decoded : Text → Option Owner → Result Owner
decoded body none = legacy_owner (trim is_space body) (cut b'@' (trim is_space body))
decoded body (some owner) =
    if equal owner.token []
    then legacy_owner (trim is_space body) (cut b'@' (trim is_space body))
    else ok owner

abbrev pub lock_options : Options → PutOptions
lock_options o = record {
  content_type = codes "text/plain; charset=utf-8";
  cache_control = o.cache_control;
  metadata = [];
  fail_if_exists = false;
  create_only = true;
  server_side_encryption = false;
}

-- `attempt == options.MaxAttempts`
abbrev pub is_last : Options → ℕ → Bool
is_last o attempt = elim o.max_attempts [ pos n ↦ attempt == n | negsuc n ↦ false ]

-- `options.MaxAttempts < 1 || attempt <= options.MaxAttempts`
abbrev pub may_try : Options → ℕ → Bool
may_try o attempt = lt_int o.max_attempts (pos 1) || not (lt_int o.max_attempts (pos attempt))

module _ {S : Type 0} (store : Store S) (json : Json) where
  -- `decodeOwner`
  unfoldable pub decode_owner : Text → Result Owner
  unfolding equal cut trim
  decode_owner body = decoded body (json.unmarshal body)

  -- `Current`, at a checked path.
  unfoldable pub current : Text → Exec S Owner
  unfolding decode_owner ◌>>=◌
  current path = do body ← store.get path; lift (decode_owner body)

  module _ (ctx : Context S) (o : Options) (path : Text) (owner : Owner) (body : Text) where
    -- An error of the store: an expired wait is reported in its place.
    abbrev pub refused : Error → Exec S Turn
    refused e = do ctx.check; raise (wrapped e)

    -- After a conflict, what the lock holds now: a lock that is gone is tried again at once.
    abbrev pub contended : ℕ → Result Owner → Exec S Turn
    contended attempt (ok _) =
        if is_last o attempt
        then pure given_up
        else (do ctx.sleep (retry_delay o.initial_backoff o.max_backoff attempt); pure again)
    contended attempt (err e) =
        if not (is_not_found e)
        then refused e
        else if is_last o attempt
        then pure given_up
        else pure again

    abbrev pub after_put : ℕ → Result (Unit {0}) → Exec S Turn
    after_put attempt (ok _) = do
      info ← wrapping (store.head path)
      pure (held (record { path = path; owner = owner; etag = info.etag; released = false }))
    after_put attempt (err e) =
        if not (is_conflict e)
        then refused e
        else (do found ← caught (current path); contended attempt found)

    -- One round of the loop of `Acquire`.
    unfoldable pub try_acquire : ℕ → Exec S Turn
    unfolding current retry_delay ◌>>=◌
    try_acquire attempt = do
      ctx.check
      done ← caught (store.put path (ok body) (lock_options o))
      after_put attempt done

    -- The rest of the loop; `none` means that the fuel ran out.
    abbrev pub next_turn :
        (S → Option (Result Handle × S)) → Result Turn × S → Option (Result Handle × S)
    next_turn rest (err e, s) = some (err e, s)
    next_turn rest (ok (held h), s) = some (ok h, s)
    next_turn rest (ok given_up, s) = some (err (wrapped locked), s)
    next_turn rest (ok again, s) = rest s

    unfoldable pub acquire_loop : ℕ → ℕ → S → Option (Result Handle × S)
    unfolding try_acquire
    acquire_loop zero attempt s = none
    acquire_loop (suc fuel) attempt s = elim (may_try o attempt) [
      | true ↦ next_turn (acquire_loop fuel (suc attempt)) (try_acquire attempt s)
      | false ↦ some (err (wrapped locked), s)
    ]

  abbrev pub acquire_at :
      Context S → ℕ → Options → Result (Text × Owner × Text) → S → Option (Result Handle × S)
  acquire_at ctx fuel o (err e) s = some (err e, s)
  acquire_at ctx fuel o (ok (path, owner, body)) s = acquire_loop ctx o path owner body fuel 1 s

  abbrev pub deleter_or : Option (Text → Text → Exec S (Unit {0})) → Result (Unit {0})
  deleter_or none = err unsupported
  deleter_or (some _) = ok tt

  -- `Acquire`
  unfoldable pub acquire :
      Context S → ℕ → Options → Result Owner → Text → S → Option (Result Handle × S)
  unfolding acquire_loop options_with_defaults checked_lock_path equal
  acquire ctx fuel options new_owner codename s =
      let o = options_with_defaults options in
      acquire_at ctx fuel o
        (and_then (deleter_or store.delete_if_match) λ _.
          and_then (checked_lock_path codename) λ path.
            and_then (chosen_owner o new_owner)
              λ owner. and_then (wrap (json.marshal owner)) λ body. ok (path, owner, body))
        s

  abbrev delete_lock : Handle → Option (Text → Text → Exec S (Unit {0})) → Exec S (Unit {0})
  delete_lock h none = raise unsupported
  delete_lock h (some delete_if_match) = delete_if_match h.path h.etag

  -- The verdict on the deletion: whether the handle is released.
  abbrev released_by : Result (Unit {0}) → Result Bool
  released_by (ok _) = ok true
  released_by (err e) =
      if is_conflict e then err not_owner else if is_not_found e then ok true else err (wrapped e)

  abbrev checked_owner : Handle → Result Owner → Result (Unit {0})
  checked_owner h (err e) = err not_owner
  checked_owner h (ok found) = if equal found.token h.owner.token then ok tt else err not_owner

  abbrev release_body : Handle → Result Text → Exec S Bool
  release_body h (err e) = if is_not_found e then pure true else raise (wrapped e)
  release_body h (ok body) = do
    lift (checked_owner h (decode_owner body))
    deleted ← caught (delete_lock h store.delete_if_match)
    lift (released_by deleted)

  -- `Release`: true where the handle is released now or was before.
  unfoldable pub release : Handle → Exec S Bool
  unfolding decode_owner equal ◌>>=◌
  release h =
      if h.released then pure true else (do body ← caught (store.get h.path); release_body h body)
