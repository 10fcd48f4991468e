-- ===== src/Lock/RoundTrip.antt =====
-- internal/lock/lock.go: `Acquire` and `Release` on a free path of the in-memory store.
use deb_s.Prelude.{
  ℕ, ◌≡◌, refl, ◌∙◌, arith, true, false, none, some, [], Text, equal, equal_iff, equal_refl, lookup,
  insert, remove, lookup-insert, lookup-remove, ok, ◌>>=◌,
}
use deb_s.Digest.{Codec}
use deb_s.Storage.Key.{join_key}
use deb_s.Storage.Memory.{
  MemoryStore, MemoryObject, get, head, put, delete, delete_if_match, memory_store, physical_key,
  new_object,
}
use deb_s.Storage.Memory.Writes.{put_lem, delete_if_match_lem}
use deb_s.Lock.Types.{Owner, IsPlain, Json, Context, Options, Handle, held}
use deb_s.Lock.{decode_owner, lock_options, try_acquire, release}

module _ (c : Codec) (now : ℕ) (json : Json) (o : Options) (path : Text) (owner : Owner)
    (plain : IsPlain owner) (body : Text) (encoded : json.marshal owner ≡ ok body) (s : MemoryStore)
    (p : Text) (valid : join_key s.prefix path ≡ ok p) (token : equal owner.token [] ≡ false)
    (free : lookup p s.objects ≡ none) where
  -- The object of the lock.
  abbrev pub lock_object : MemoryObject
  lock_object = new_object c now p body (lock_options o)

  abbrev pub handle : Handle
  handle = record { path = path; owner = owner; etag = lock_object.info.etag; released = false }

  -- The store with the lock in it.
  abbrev pub locked_store : MemoryStore
  locked_store = record s { objects = insert p lock_object s.objects }

  lock_is_there : lookup p locked_store.objects ≡ some lock_object
  lock_is_there = lookup-insert p p lock_object s.objects ∙ rw equal_refl refl

  put_lock : put c none now path (ok body) (lock_options o) s ≡ (ok tt, locked_store)
  put_lock = put_lem s path p valid c now body (lock_options o) ∙ rw free refl

  head_lock :
      head none path locked_store ≡ (ok (record lock_object.info { key = path }), locked_store)
  unfolding head physical_key ◌>>=◌
  head_lock = rw (valid, lock_is_there) refl

  get_lock : get none path locked_store ≡ (ok body, locked_store)
  unfolding get physical_key ◌>>=◌ new_object
  get_lock = rw (valid, lock_is_there) refl

  decode_lock : decode_owner (memory_store c none now) json body ≡ ok owner
  unfolding decode_owner
  decode_lock = rw (json.unmarshal-marshal owner body plain encoded, token) refl

  acquire_free :
      (ctx : Context MemoryStore) (attempt : ℕ)
      → ctx.check s ≡ (ok tt, s)
      → try_acquire (memory_store c none now) json ctx o path owner body attempt s
        ≡ (ok (held handle), locked_store)
  unfolding try_acquire ◌>>=◌
  acquire_free ctx attempt passes = rw passes (rw put_lock (rw head_lock refl))

  delete_lock_lem :
      delete_if_match none path lock_object.info.etag locked_store ≡ delete none path locked_store
  delete_lock_lem =
      delete_if_match_lem locked_store path p valid lock_object.info.etag lock_object lock_is_there
      ∙ rw equal_refl refl

  delete_locked :
      delete none path locked_store
      ≡ (ok tt, record s { objects = remove p (insert p lock_object s.objects) })
  unfolding delete physical_key ◌>>=◌
  delete_locked = rw valid refl

  release_lock :
      release (memory_store c none now) json handle locked_store
      ≡ (ok true, record s { objects = remove p (insert p lock_object s.objects) })
  unfolding release ◌>>=◌
  release_lock =
      rw get_lock (rw decode_lock (rw equal_refl (rw delete_lock_lem (rw delete_locked refl))))

  same_objects :
      (q : Text) → lookup q (remove p (insert p lock_object s.objects)) ≡ lookup q s.objects
  same_objects q = ground (
    arith,
    free,
    equal_iff p q,
    lookup-remove p q (insert p lock_object s.objects),
    lookup-insert p q lock_object s.objects,
  )

  -- On MemoryStore, when the path is valid and free, the owner has a token, consists of ASCII
  -- texts and can be encoded as JSON, and the context lets the round start and leaves the store
  -- as it is, a round of Acquire acquires the lock, Release of the handle succeeds, and then
  -- every key holds what it held before.
  pub try_acquire-release :
      (ctx : Context MemoryStore) (attempt : ℕ)
      → ctx.check s ≡ (ok tt, s)
      → (h : Handle) × (t : MemoryStore) × (u : MemoryStore) × (try_acquire
            (memory_store c none now)
            json
            ctx
            o
            path
            owner
            body
            attempt
            s
          ≡ (ok (held h), t))
        × (release (memory_store c none now) json h t ≡ (ok true, u))
        × ((q : Text) → lookup q u.objects ≡ lookup q s.objects)
  try_acquire-release ctx attempt passes =
      (handle, locked_store, _, acquire_free ctx attempt passes, release_lock, same_objects)
