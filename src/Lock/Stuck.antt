-- ===== src/Lock/Stuck.antt =====
-- internal/lock/lock.go: `Acquire` on the in-memory store, while the path holds another lock.
use deb_s.Prelude.{
  ℕ, ℤ, zero, suc, ◌≡◌, refl, sym, ap, subst, Bool, true, false, none, some, Option, Text, equal,
  lookup, Error, Result, ok, err, conflict, locked, wrapped, Bool-cases, inl, inr, ◌⊎◌, ◌>>=◌,
  continue, is_not_found,
}
use deb_s.Digest.{Codec, encode_to_string}
use deb_s.Storage.Key.{join_key}
use deb_s.Storage.Memory
use deb_s.Storage.Memory.{MemoryStore, MemoryObject, physical_key, memory_store}
use deb_s.Storage.Memory.Etag.{object_md5}
use deb_s.Lock.Types.{Owner, Json, Context, Options, Handle, Turn, again, given_up}
use deb_s.Lock.{
  current, refused, contended, after_put, try_acquire, next_turn, acquire_loop, may_try, is_last,
  lock_options,
}
use deb_s.Lock.Backoff.{retry_delay}
use deb_s.Lock.Exclusion.{put_conflict}

-- The context leaves the store as it is.
pub record IsQuiet {S : Type 0} (ctx : Context S) : Type 0 where
  pub check : (s : S) → (ctx.check s).1 ≡ s
  pub sleep : (d : ℤ) (s : S) → (ctx.sleep d s).1 ≡ s

-- No lock, and the store as it was.
abbrev pub IsStuck : MemoryStore → Result Turn × MemoryStore → Type 0
IsStuck s x = (x ≡ (ok again, s)) ⊎ (x ≡ (ok given_up, s)) ⊎ ((e : Error) × (x ≡ (err e, s)))

-- The rest after a call that leaves the store as it is.
after_quiet :
    (s : MemoryStore) (x : Result (Unit {0}) × MemoryStore)
    (f : MemoryStore → Result Turn × MemoryStore)
    → x.1 ≡ s
    → IsStuck s (f s)
    → IsStuck s (continue x.0 (λ _ u. f u) x.1)
after_quiet s (ok _, u) f same stuck = rw same stuck
after_quiet s (err e, u) f same stuck = inr (inr (e, ap (λ v. (err e, v)) same))

-- No lock so far: the fuel ran out, or there is an error and the store as it was.
abbrev pub IsLockless : MemoryStore → Option (Result Handle × MemoryStore) → Type 0
IsLockless s x = (x ≡ none) ⊎ ((e : Error) × (x ≡ some (err e, s)))

module _ (c : Codec) (now : ℕ) (json : Json) (ctx : Context MemoryStore) (quiet : IsQuiet ctx)
    (o : Options) (path : Text) (owner : Owner) (body : Text) (s : MemoryStore) where
  refused-IsStuck :
      (e : Error) → IsStuck s (refused (memory_store c none now) json ctx o path owner body e s)
  unfolding ◌>>=◌
  refused-IsStuck e =
      after_quiet s (ctx.check s) (λ u. (err (wrapped e), u)) (quiet.check s) (inr (inr (_, refl)))

  contended-IsStuck :
      (attempt : ℕ) (r : Result Owner)
      → IsStuck s (contended (memory_store c none now) json ctx o path owner body attempt r s)
  unfolding ◌>>=◌
  contended-IsStuck attempt (ok _) = elim (Bool-cases (is_last o attempt)) [
    | inl e ↦ rw e (inr (inl refl))
    | inr e ↦ rw e (
        after_quiet s (ctx.sleep (retry_delay o.initial_backoff o.max_backoff attempt) s)
          (λ u. (ok again, u)) (quiet.sleep (retry_delay o.initial_backoff o.max_backoff attempt) s)
          (inl refl))
  ]
  contended-IsStuck attempt (err e) = elim (Bool-cases (is_not_found e)) [
    | inr f ↦ rw f (refused-IsStuck e)
    | inl f ↦ rw f (elim (Bool-cases (is_last o attempt)) [
      | inl g ↦ rw g (inr (inl refl))
      | inr g ↦ rw g (inl refl)
    ])
  ]

  tried_or_locked :
      (b : Bool) (x : Option (Result Handle × MemoryStore))
      → IsLockless s x
      → IsLockless s (elim b [ true ↦ x | false ↦ some (err (wrapped locked), s) ])
  tried_or_locked true x h = h
  tried_or_locked false x h = inr (_, refl)

  next_turn-IsLockless :
      (rest : MemoryStore → Option (Result Handle × MemoryStore)) (x : Result Turn × MemoryStore)
      → IsStuck s x
      → IsLockless s (rest s)
      → IsLockless s (next_turn (memory_store c none now) json ctx o path owner body rest x)
  next_turn-IsLockless rest x (inl e) h = rw e h
  next_turn-IsLockless rest x (inr (inl e)) h = rw e (inr (_, refl))
  next_turn-IsLockless rest x (inr (inr (f, e))) h = rw e (inr (f, refl))

  module _ (p : Text) (valid : join_key s.prefix path ≡ ok p) (other : MemoryObject)
      (there : lookup p s.objects ≡ some other)
      (differs : equal (object_md5 other.info) (encode_to_string (c.md5_sum (body))) ≡ false) where
    current-same : (current (memory_store c none now) json path s).1 ≡ s
    unfolding current Memory.get physical_key ◌>>=◌
    current-same = rw valid (rw there refl)

    after_put-IsStuck :
        (attempt : ℕ)
        → IsStuck s (
            after_put
              (memory_store c none now)
              json
              ctx
              o
              path
              owner
              body
              attempt
              (err (conflict path))
              s)
    unfolding ◌>>=◌
    after_put-IsStuck attempt =
        subst
          (λ t. IsStuck s (
            contended (memory_store c none now) json ctx o path owner body attempt
              (current (memory_store c none now) json path s).0 t))
          (sym current-same)
          (contended-IsStuck attempt (current (memory_store c none now) json path s).0)

    -- The round behind the check of the context.
    abbrev tried : ℕ → MemoryStore → Result Turn × MemoryStore
    tried attempt u =
        let x = Memory.put c none now path (ok (body)) (lock_options o) u in
        after_put (memory_store c none now) json ctx o path owner body attempt x.0 x.1

    try_acquire-IsStuck :
        (attempt : ℕ)
        → IsStuck s (try_acquire (memory_store c none now) json ctx o path owner body attempt s)
    unfolding try_acquire ◌>>=◌
    try_acquire-IsStuck attempt = after_quiet s (ctx.check s) (tried attempt) (quiet.check s) (
        subst
          (λ x.
            IsStuck s
              (after_put (memory_store c none now) json ctx o path owner body attempt x.0 x.1))
          (sym (put_conflict c now json ctx o path owner body s p valid other there differs))
          (after_put-IsStuck attempt))

    pub acquire_loop-IsLockless :
        (fuel attempt : ℕ)
        → IsLockless s
            (acquire_loop (memory_store c none now) json ctx o path owner body fuel attempt s)
    unfolding acquire_loop
    acquire_loop-IsLockless zero attempt = inl refl
    acquire_loop-IsLockless (suc fuel) attempt = tried_or_locked (may_try o attempt) _ (
        next_turn-IsLockless
          (acquire_loop (memory_store c none now) json ctx o path owner body fuel (suc attempt))
          (try_acquire (memory_store c none now) json ctx o path owner body attempt s)
          (try_acquire-IsStuck attempt) (acquire_loop-IsLockless fuel (suc attempt)))
