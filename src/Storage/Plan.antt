-- ===== src/Storage/Plan.antt =====
-- Plans: the calls that a procedure makes on a store, in order, up to the first that fails, and the
-- value that it returns if none fails.
use mathlib.Core.Path.{fun_ext}
use deb_s.Prelude.{
  ◌≡◌, refl, ap, sym, ◌∙◌, Bool, true, false, Option, none, some, List, [], ◌∷◌, ◌++◌, Text, Result,
  ok, err, wrap, Exec, pure, raise, lift, Error, if◌then◌else◌, wrapping, continue, ◌>>=◌,
}
use deb_s.Storage.Types.{PutOptions, Store}

pub data Op : Type 0 where
  put : Text → Result Text → PutOptions → Op
  delete : Text → Op

-- No value: the procedure fails by itself after its calls.
abbrev pub Plan : Type 0 → Type 0
Plan A = List Op × Option A

abbrev pub then_plan : {A B : Type 0} → Plan A → (A → Plan B) → Plan B
then_plan (ops, none) f = (ops, none)
then_plan (ops, some a) f = (ops ++ (f a).0, (f a).1)

abbrev pub to_option {ℓ} : {A : Type ℓ} → Result A → Option A
to_option (ok a) = some a
to_option (err _) = none

-- The value, if there is one, and the state; which error it is, is left out.
abbrev pub outcome : {S A : Type 0} → Result A × S → Option A × S
outcome (r, s) = (to_option r, s)

abbrev go_on : {S B : Type 0} → Bool × S → B → (S → B × S) → B × S
go_on (true, s) failure rest = rest s
go_on (false, s) failure rest = (failure, s)

abbrev succeeds : {S A : Type 0} → Result A × S → Bool × S
succeeds (ok _, s) = (true, s)
succeeds (err _, s) = (false, s)

abbrev after_value : {S A B : Type 0} → Option A × S → (A → S → Option B × S) → Option B × S
after_value (none, s) f = (none, s)
after_value (some a, s) f = f a s

module _ {S : Type 0} where
  go_on-go_on :
      (r : Bool × S) (f g : S → Bool × S)
      → go_on (go_on r false f) false g ≡ go_on r false (λ s. go_on (f s) false g)
  go_on-go_on (true, s) f g = refl
  go_on-go_on (false, s) f g = refl

  go_on-none :
      {A B : Type 0} (r : Bool × S) (g : A → S → Option B × S)
      → go_on r none (λ s. (none, s)) ≡ after_value (go_on r none (λ s. (none, s))) g
  go_on-none (true, s) g = refl
  go_on-none (false, s) g = refl

  go_on-some :
      {A B : Type 0} (r : Bool × S) (a : A) (g : A → S → Option B × S) (h : S → Bool × S)
      (v : Option B)
      → ((s : S) → g a s ≡ go_on (h s) none (λ s'. (v, s')))
      → go_on (go_on r false h) none (λ s. (v, s)) ≡ after_value (go_on r none (λ s. (some a, s))) g
  go_on-some (true, s) a g h v e = sym (e s)
  go_on-some (false, s) a g h v e = refl

  outcome-succeeds :
      (r : Result (Unit {0}) × S)
      → outcome r ≡ go_on (go_on (succeeds r) false (λ s. (true, s))) none (λ s. (some tt, s))
  outcome-succeeds (ok _, s) = refl
  outcome-succeeds (err _, s) = refl

outcome-wrap : {S A : Type 0} (r : Result A × S) → outcome (wrap r.0, r.1) ≡ outcome r
outcome-wrap (ok _, s) = refl
outcome-wrap (err _, s) = refl

outcome-continue :
    {S A B : Type 0} (r : Result A × S) (f : A → Exec S B) (g : A → S → Option B × S)
    → ((a : A) (s : S) → outcome (f a s) ≡ g a s)
    → outcome (continue r.0 f r.1) ≡ after_value (outcome r) g
outcome-continue (ok a, s) f g h = h a s
outcome-continue (err _, s) f g h = refl

module _ {S : Type 0} (store : Store S) where
  abbrev call : Op → S → Bool × S
  call (put key body options) s = succeeds (store.put key body options s)
  call (delete key) s = succeeds (store.delete key s)

  -- Whether all calls succeed.
  pub calls : List Op → S → Bool × S
  calls [] s = (true, s)
  calls (o ∷ os) s = go_on (call o s) false (calls os)

  pub run : {A : Type 0} → Plan A → S → Option A × S
  run (ops, v) s = go_on (calls ops s) none (λ s'. (v, s'))

  -- From every state the procedure ends as the plan does.
  pub record Follows {A : Type 0} (m : Exec S A) (p : Plan A) : Type 0 where
    pub at : (s : S) → outcome (m s) ≡ run p s

  calls-append :
      (xs ys : List Op) (s : S) → calls (xs ++ ys) s ≡ go_on (calls xs s) false (calls ys)
  unfolding calls
  calls-append [] ys s = refl
  calls-append (x ∷ xs) ys s =
      ap (go_on (call x s) false) (fun_ext (calls-append xs ys))
      ∙ sym (go_on-go_on (call x s) (calls xs) (calls ys))

  run-then_plan :
      {A B : Type 0} (p : Plan A) (f : A → Plan B) (s : S)
      → run (then_plan p f) s ≡ after_value (run p s) (λ a. run (f a))
  unfolding run
  run-then_plan (xs, none) f s = go_on-none (calls xs s) (λ a. run (f a))
  run-then_plan (xs, some a) f s =
      ap (λ r. go_on r none (λ s'. ((f a).1, s'))) (calls-append xs (f a).0 s)
      ∙ go_on-some (calls xs s) a (λ b. run (f b)) (calls (f a).0) (f a).1 (λ s'. refl)

module _ {S : Type 0} {store : Store S} where
  pub Follows-pure : {A : Type 0} (a : A) → Follows store (pure a) ([], some a)
  unfolding run calls
  Follows-pure a = record { at = λ s. refl }

  pub Follows-raise : {A : Type 0} (e : Error) → Follows store (raise {A = A} e) ([], none)
  unfolding run calls
  Follows-raise e = record { at = λ s. refl }

  pub Follows-if :
      {A : Type 0} (b : Bool) (m n : Exec S A) (p q : Plan A)
      → Follows store m p
      → Follows store n q
      → Follows store (if b then m else n) (if b then p else q)
  Follows-if true m n p q hm hn = hm
  Follows-if false m n p q hm hn = hn

  pub Follows-lift : {A : Type 0} (r : Result A) → Follows store (lift r) ([], to_option r)
  unfolding run calls
  Follows-lift r = record { at = λ s. refl }

  pub Follows-wrapping :
      {A : Type 0} (m : Exec S A) (p : Plan A) → Follows store m p → Follows store (wrapping m) p
  Follows-wrapping m p h = record { at = λ s. outcome-wrap (m s) ∙ h.at s }

  pub Follows-bind :
      {A B : Type 0} (m : Exec S A) (f : A → Exec S B) (p : Plan A) (q : A → Plan B)
      → Follows store m p
      → ((a : A) → Follows store (f a) (q a))
      → Follows store (m >>= f) (then_plan p q)
  unfolding ◌>>=◌
  Follows-bind m f p q hm hf = record {
    at = λ s.
        outcome-continue (m s) f (λ a. run store (q a)) (λ a. (hf a).at)
        ∙ ap (λ r. after_value r (λ a. run store (q a))) (hm.at s)
        ∙ sym (run-then_plan store p q s);
  }

  pub Follows-put :
      (key : Text) (body : Result Text) (options : PutOptions)
      → Follows store (store.put key body options) (put key body options ∷ [], some tt)
  unfolding run calls
  Follows-put key body options = record {
    at = λ s. outcome-succeeds (store.put key body options s);
  }

  pub Follows-delete : (key : Text) → Follows store (store.delete key) (delete key ∷ [], some tt)
  unfolding run calls
  Follows-delete key = record { at = λ s. outcome-succeeds (store.delete key s) }
