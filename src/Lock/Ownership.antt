-- ===== src/Lock/Ownership.antt =====
-- internal/lock/lock.go: what `Release` does to locks in the in-memory store.
use deb_s.Prelude.{
  ℕ, ◌≡◌, refl, Bool, true, false, none, some, Text, equal, lookup, remove, Exec, pure, ok, err,
  not_found, ◌⊎◌, inl, inr, Option-cases, Bool-cases, Result-cases, ◌>>=◌, if◌then◌else◌,
}
use deb_s.Digest.{Codec}
use deb_s.Storage.Key.{join_key}
use deb_s.Storage.Memory.{MemoryStore, MemoryObject, get, delete, memory_store, physical_key}
use deb_s.Storage.Memory.Etag.{trim_etag}
use deb_s.Storage.Memory.Writes.{delete_if_match_lem}
use deb_s.Lock.Types.{Owner, Json, Handle}
use deb_s.Lock.{decode_owner, release, release_body}

-- The object is the lock that the handle stands for: its owner has the token of the handle, and its
-- ETag is the one that the handle was made with.
abbrev pub Owns : Codec → ℕ → Json → Handle → MemoryObject → Type 0
Owns c now json h o =
    (owner : Owner) × (decode_owner (memory_store c none now) json o.content ≡ ok owner)
    × (equal owner.token h.owner.token ≡ true)
    × (equal (trim_etag o.info.etag) (trim_etag h.etag) ≡ true)

module _ (c : Codec) (now : ℕ) (json : Json) (h : Handle) (s : MemoryStore) (p : Text)
    (valid : join_key s.prefix h.path ≡ ok p) where
  abbrev pub OwnOnly : MemoryStore → Type 0
  OwnOnly t =
      (t ≡ s)
      ⊎ ((o : MemoryObject) × (lookup p s.objects ≡ some o)
          × Owns c now json h o
          × (t.objects ≡ remove p s.objects))

  delete_lem : delete none h.path s ≡ (ok tt, record s { objects = remove p s.objects })
  unfolding delete physical_key ◌>>=◌
  delete_lem = rw valid refl

  release_body-OwnOnly :
      (o : MemoryObject)
      → lookup p s.objects ≡ some o
      → OwnOnly (release_body (memory_store c none now) json h (ok o.content) s).1
  unfolding ◌>>=◌
  release_body-OwnOnly o there =
      elim (Result-cases (decode_owner (memory_store c none now) json o.content)) [
        | inr (e, bad) ↦ rw bad (inl refl)
        | inl (owner, good) ↦ elim (Bool-cases (equal owner.token h.owner.token)) [
          | inr other ↦ rw good (rw other (inl refl))
          | inl same ↦ elim (Bool-cases (equal (trim_etag o.info.etag) (trim_etag h.etag))) [
            | inr changed ↦ rw good (
                rw same (
                  rw (delete_if_match_lem s h.path p valid h.etag o there) (rw changed (inl refl))))
            | inl kept ↦ rw good (
                rw same (
                  rw (delete_if_match_lem s h.path p valid h.etag o there)
                    (rw kept (rw delete_lem (inr (o, there, (owner, good, same, kept), refl))))))
          ]
        ]
      ]

  get_there :
      (o : MemoryObject) → lookup p s.objects ≡ some o → get none h.path s ≡ (ok o.content, s)
  unfolding get physical_key ◌>>=◌
  get_there o there = rw (valid, there) refl

  get_gone : lookup p s.objects ≡ none → get none h.path s ≡ (err (not_found h.path), s)
  unfolding get physical_key ◌>>=◌
  get_gone gone = rw (valid, gone) refl

  unless_released-OwnOnly :
      (b : Bool) (m : Exec MemoryStore Bool)
      → OwnOnly (m s).1
      → OwnOnly ((if b then pure true else m) s).1
  unless_released-OwnOnly true m k = inl refl
  unless_released-OwnOnly false m k = k

  -- On MemoryStore, Release either leaves the store as it was, or removes exactly the object at
  -- the lock's path, and then that object decodes to an owner with the handle's token and has the
  -- handle's ETag up to quotes and space.
  pub release-OwnOnly : OwnOnly (release (memory_store c none now) json h s).1
  unfolding release ◌>>=◌
  release-OwnOnly = unless_released-OwnOnly h.released _ (elim (Option-cases (lookup p s.objects)) [
    | inl gone ↦ rw (get_gone gone) (inl refl)
    | inr (o, there) ↦ rw (get_there o there) (release_body-OwnOnly o there)
  ])
