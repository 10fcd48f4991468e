-- ===== src/Lock/Rounds.antt =====
-- internal/lock/lock.go: how many rounds `Acquire` makes.
use deb_s.Prelude.{
  ℕ, zero, suc, ◌+◌, ◌≤◌, ◌<◌, ◌≡◌, refl, arith, true, not, ◌||◌, Option, some, Text, pos, lt_int,
  Result, ok, err, Bool-cases, inl, inr,
}
use deb_s.Storage.Types.{Store}
use deb_s.Lock.Types.{Owner, Json, Context, Options, Handle, Turn, held, again, given_up}
use deb_s.Lock.{acquire_loop, may_try, next_turn, acquire_at, acquire, options_with_defaults}

abbrev pub IsSome : {A : Type 0} → Option A → Type 0
IsSome {A = A} o = (a : A) × (o ≡ some a)

within :
    (m attempt : ℕ)
    → (lt_int (pos (suc m)) (pos 1) || not (lt_int (pos (suc m)) (pos attempt))) ≡ true
    → attempt ≤ suc m
within m attempt h = ground arith

may_try→le :
    (o : Options) (m attempt : ℕ)
    → o.max_attempts ≡ pos (suc m)
    → may_try o attempt ≡ true
    → attempt ≤ suc m
may_try→le o m attempt e h = within m attempt (rw e at h)

max_attempts-with_defaults :
    (o : Options) (m : ℕ)
    → o.max_attempts ≡ pos (suc m)
    → (options_with_defaults o).max_attempts ≡ pos (suc m)
unfolding options_with_defaults
max_attempts-with_defaults o m e = rw e e

module _ {S : Type 0} (store : Store S) (json : Json) (ctx : Context S) where
  module _ (o : Options) (path : Text) (owner : Owner) (body : Text) where
    next_turn-IsSome :
        (rest : S → Option (Result Handle × S)) (r : Result Turn × S)
        → ((s : S) → IsSome (rest s))
        → IsSome (next_turn store json ctx o path owner body rest r)
    next_turn-IsSome rest (err e, s) h = (_, refl)
    next_turn-IsSome rest (ok (held x), s) h = (_, refl)
    next_turn-IsSome rest (ok given_up, s) h = (_, refl)
    next_turn-IsSome rest (ok again, s) h = h s

    acquire_loop-IsSome :
        (m fuel attempt : ℕ) (s : S)
        → o.max_attempts ≡ pos (suc m)
        → attempt ≤ m + 2
        → m + 2 < attempt + fuel
        → IsSome (acquire_loop store json ctx o path owner body fuel attempt s)
    unfolding acquire_loop
    acquire_loop-IsSome m zero attempt s e l h = absurd (omega arith)
    acquire_loop-IsSome m (suc fuel) attempt s e l h = elim (Bool-cases (may_try o attempt)) [
      | inl t ↦
          let k = may_try→le o m attempt e t in
          rw (t, acquire_loop)
            (next_turn-IsSome _ _
              λ s'. acquire_loop-IsSome m fuel (suc attempt) s' e (omega arith) (omega arith))
      | inr f ↦ rw (f, acquire_loop) (_, refl)
    ]

  acquire_at-IsSome :
      (o : Options) (m fuel : ℕ) (r : Result (Text × Owner × Text)) (s : S)
      → o.max_attempts ≡ pos (suc m)
      → m + 1 < fuel
      → IsSome (acquire_at store json ctx fuel o r s)
  acquire_at-IsSome o m fuel (err e) s h l = (_, refl)
  acquire_at-IsSome o m fuel (ok (path, owner, body)) s h l =
      acquire_loop-IsSome o path owner body m fuel 1 s h (omega arith) (omega arith)

  -- On any store and with any context, Acquire with a positive MaxAttempts returns within
  -- MaxAttempts + 1 rounds of its loop, whatever the store and the context answer.
  pub acquire-IsSome :
      (options : Options) (new_owner : Result Owner) (codename : Text) (m fuel : ℕ) (s : S)
      → options.max_attempts ≡ pos (suc m)
      → m + 1 < fuel
      → IsSome (acquire store json ctx fuel options new_owner codename s)
  unfolding acquire
  acquire-IsSome options new_owner codename m fuel s h l =
      acquire_at-IsSome (options_with_defaults options) m fuel _ s
        (max_attempts-with_defaults options m h) l
