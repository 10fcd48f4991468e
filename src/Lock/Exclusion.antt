-- ===== src/Lock/Exclusion.antt =====
-- internal/lock/lock.go: rounds of `Acquire` on the in-memory store.
use deb_s.Prelude.{
  ℕ, ◌≡◌, refl, ◌∙◌, false, none, some, Text, equal, lookup, Error, Result, ok, err, conflict,
  Bool-cases, inl, inr, ◌>>=◌, continue, is_not_found,
}
use deb_s.Digest.{Codec, encode_to_string}
use deb_s.Storage.Key.{join_key}
use deb_s.Storage.Memory.{MemoryStore, MemoryObject, put, memory_store}
use deb_s.Storage.Memory.Etag.{object_md5}
use deb_s.Storage.Memory.Writes.{put_lem}
use deb_s.Lock.Types.{Owner, Json, Context, Options, Handle, Turn, held, again, given_up}
use deb_s.Lock.{current, lock_options, try_acquire, contended, is_last}

module _ (c : Codec) (now : ℕ) (json : Json) (ctx : Context MemoryStore) (o : Options) (path : Text)
    (owner : Owner) (body : Text) where
  abbrev pub IsHeld : Result Turn → Type 0
  IsHeld r = (h : Handle) × (r ≡ ok (held h))

  abbrev pub IsRefused : Result Turn → Type 0
  IsRefused r = ¬ IsHeld r

  refused_lem :
      (e : Error) (r : Result (Unit {0})) (s : MemoryStore)
      → IsRefused (continue r (λ _ s'. (err e, s')) s).0
  refused_lem e (ok _) s (h, k) = cc
  refused_lem e (err e') s (h, k) = cc

  again-IsRefused :
      (r : Result (Unit {0})) (s : MemoryStore)
      → IsRefused (continue r (λ _ s'. (ok again, s')) s).0
  again-IsRefused (ok _) s (h, k) = cc
  again-IsRefused (err e') s (h, k) = cc

  given_up-IsRefused : IsRefused (ok given_up)
  given_up-IsRefused (h, k) = cc

  contended-IsRefused :
      (attempt : ℕ) (r : Result Owner) (s : MemoryStore)
      → IsRefused (contended (memory_store c none now) json ctx o path owner body attempt r s).0
  unfolding ◌>>=◌
  contended-IsRefused attempt (ok _) s = elim (Bool-cases (is_last o attempt)) [
    | inl e ↦ rw e given_up-IsRefused
    | inr e ↦ rw e (again-IsRefused _ _)
  ]
  contended-IsRefused attempt (err e) s = elim (Bool-cases (is_not_found e)) [
    | inr f ↦ rw f (refused_lem _ _ _)
    | inl f ↦ rw f (elim (Bool-cases (is_last o attempt)) [
      | inl e ↦ rw e given_up-IsRefused
      | inr e ↦ rw e (λ (h, k). cc)
    ])
  ]

  module _ (s : MemoryStore) (p : Text) (valid : join_key s.prefix path ≡ ok p) where
    pub put_conflict :
        (other : MemoryObject)
        → lookup p s.objects ≡ some other
        → equal (object_md5 other.info) (encode_to_string (c.md5_sum (body))) ≡ false
        → put c none now path (ok (body)) (lock_options o) s ≡ (err (conflict path), s)
    put_conflict other there differs =
        put_lem s path p valid c now (body) (lock_options o) ∙ rw (there, differs) refl

    -- On MemoryStore, when the context lets a round of Acquire start and leaves the store as it
    -- is, and the path holds an object whose digest is not that of the lock that the round would
    -- write, then the round does not acquire the lock.
    pub try_acquire-IsRefused :
        (attempt : ℕ) (other : MemoryObject)
        → ctx.check s ≡ (ok tt, s)
        → lookup p s.objects ≡ some other
        → equal (object_md5 other.info) (encode_to_string (c.md5_sum (body))) ≡ false
        → IsRefused (try_acquire (memory_store c none now) json ctx o path owner body attempt s).0
    unfolding try_acquire ◌>>=◌
    try_acquire-IsRefused attempt other free there differs = rw free (
        rw (put_conflict other there differs) (
          contended-IsRefused attempt (current (memory_store c none now) json path s).0
            (current (memory_store c none now) json path s).1))
