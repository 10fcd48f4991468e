-- ===== src/Storage/S3/Requests.antt =====
-- internal/storage: any sequence of requests, to `S3Store` and to `MemoryStore`.
use deb_s.Prelude.{
  ℕ, ◌≡◌, refl, sym, ap, Bool, none, List, [], ◌∷◌, Text, lookup, Result, ok, All, ◌>>=◌,
  Option-cases, Result-cases, inl, inr,
}
use deb_s.Digest.{Codec}
use deb_s.Storage.Key.{join_key}
use deb_s.Storage.Types.{ObjectInfo, PutOptions}
use deb_s.Storage.Memory
use deb_s.Storage.Memory.{MemoryStore, MemoryObject, physical_key}
use deb_s.Storage.S3
use deb_s.Storage.S3.Inputs.{S3Store, put_input}
use deb_s.Storage.S3.Api.{Client}
use deb_s.Storage.S3.Bucket.{Bucket, IsStorable}
use deb_s.Storage.S3.Simulates.{view, Agrees, HasKey, encrypted, get-Agrees, head-Agrees}
use deb_s.Storage.S3.Writes.{put_absent-Agrees, put_present-Agrees, delete-Agrees}

pub data Request : Type 0 where
  get_it head_it delete_it : Text → Request
  put_it : Text → Result Text → PutOptions → Request

pub data Answer : Type 0 where
  content : Result Text → Answer
  info : Result ObjectInfo → Answer
  done : Result (Unit {0}) → Answer

abbrev pub answer {ℓ} : {A S : Type ℓ} → (Result A → Answer) → Result A × S → Answer × S
answer f (r, s) = (f r, s)

-- A request to `MemoryStore`, at a time.
abbrev pub ask_memory : Codec → Bool → S3Store → ℕ → Request → MemoryStore → Answer × MemoryStore
ask_memory c encrypts s3 now (get_it key) m = answer content (Memory.get none key m)
ask_memory c encrypts s3 now (head_it key) m = answer info (Memory.head none key m)
ask_memory c encrypts s3 now (delete_it key) m = answer done (Memory.delete none key m)
ask_memory c encrypts s3 now (put_it key body options) m =
    answer done (Memory.put c none now key body (encrypted encrypts s3 options) m)

abbrev answered : {S : Type 0} → Answer × S → (S → List Answer × S) → List Answer × S
answered (a, s) rest = let (others, s') = rest s in (a ∷ others, s')

unfoldable pub run_memory :
    Codec → Bool → S3Store → List (ℕ × Request) → MemoryStore → List Answer × MemoryStore
unfolding Memory.get Memory.head Memory.put Memory.delete
run_memory c encrypts s3 [] m = ([], m)
run_memory c encrypts s3 ((now, r) ∷ rs) m =
    answered (ask_memory c encrypts s3 now r m) (λ m'. run_memory c encrypts s3 rs m')

module _ {S : Type 0} (c : Codec) (client : Client S) (s3 : S3Store) where
  abbrev pub ask_s3 : Request → S → Answer × S
  ask_s3 (get_it key) s = answer content (S3.get client s3 key s)
  ask_s3 (head_it key) s = answer info (S3.head client s3 key s)
  ask_s3 (delete_it key) s = answer done (S3.delete client s3 key s)
  ask_s3 (put_it key body options) s = answer done (S3.put client s3 c key body options s)

  unfoldable pub run_s3 : List Request → S → List Answer × S
  unfolding S3.get S3.head S3.put S3.delete
  run_s3 [] s = ([], s)
  run_s3 (r ∷ rs) s = answered (ask_s3 r s) (λ s'. run_s3 rs s')

  module _ (b : Bucket S c client) where
    -- The requests, each with the time at which the bucket receives it.
    unfoldable pub timed : List Request → S → List (ℕ × Request)
    unfolding S3.get S3.head S3.put S3.delete
    timed [] s = []
    timed (r ∷ rs) s = (b.now s, r) ∷ timed rs (ask_s3 r s).1

    -- What `Put` sends for the body is within the limits of S3.
    abbrev pub CanStore : Text → Result Text → PutOptions → Type 0
    CanStore key body options =
        (p content : Text) (absent : Bool)
        → join_key s3.prefix key ≡ ok p
        → body ≡ ok content
        → IsStorable b.IsKey (put_input s3 c p content options absent)

    -- A request that S3 takes.
    abbrev pub IsSendable : Request → Type 0
    IsSendable (get_it key) = HasKey c client b s3 key
    IsSendable (head_it key) = HasKey c client b s3 key
    IsSendable (delete_it key) = HasKey c client b s3 key
    IsSendable (put_it key body options) = HasKey c client b s3 key × CanStore key body options

    put-Agrees :
        (s : S) (key : Text) (body : Result Text) (options : PutOptions)
        → HasKey c client b s3 key
        → CanStore key body options
        → Agrees c client b s3 (S3.put client s3 c key body options s) (
            Memory.put c none
              (b.now s)
              key
              body
              (encrypted b.encrypts s3 options)
              (view c client b s3 s))
    unfolding S3.put Memory.put physical_key ◌>>=◌
    put-Agrees s key body options has_key can_store = elim (Result-cases (join_key s3.prefix key)) [
      | inr (e, bad) ↦ rw bad (refl, refl)
      | inl (p, good) ↦ elim (Result-cases body) [
        | inr (e, bad) ↦ rw bad (rw good (refl, refl))
        | inl (t, read) ↦ elim (Option-cases (lookup p (b.objects s))) [
          | inl gone ↦ rw read (
              put_absent-Agrees c client b s3 s key p good t options
                (λ absent. can_store p t absent good read) (has_key p good) gone)
          | inr (o, there) ↦ rw read (
              put_present-Agrees c client b s3 s key p good t options
                (λ absent. can_store p t absent good read) o there)
        ]
      ]
    ]

    delete_any-Agrees :
        (s : S) (key : Text)
        → HasKey c client b s3 key
        → Agrees c client b s3
            (S3.delete client s3 key s)
            (Memory.delete none key (view c client b s3 s))
    unfolding S3.delete Memory.delete physical_key ◌>>=◌
    delete_any-Agrees s key has_key = elim (Result-cases (join_key s3.prefix key)) [
      | inr (e, bad) ↦ rw bad (refl, refl)
      | inl (p, good) ↦ delete-Agrees c client b s3 s key p good (has_key p good)
    ]

    ask-Agrees :
        (r : Request) (s : S)
        → IsSendable r
        → ((ask_s3 r s).0 ≡ (ask_memory c b.encrypts s3 (b.now s) r (view c client b s3 s)).0)
          × (view c client b s3 (ask_s3 r s).1
              ≡ (ask_memory c b.encrypts s3 (b.now s) r (view c client b s3 s)).1)
    ask-Agrees (get_it key) s k = let (h, i) = get-Agrees c client b s3 s key k in (ap content h, i)
    ask-Agrees (head_it key) s k = let (h, i) = head-Agrees c client b s3 s key k in (ap info h, i)
    ask-Agrees (delete_it key) s k = let (h, i) = delete_any-Agrees s key k in (ap done h, i)
    ask-Agrees (put_it key body options) s (k, can) =
        let (h, i) = put-Agrees s key body options k can in (ap done h, i)

    -- Over a client of the bucket that behaves as documented, any sequence of Get, Head, Delete
    -- and Put requests within the limits of S3 (keys that it takes, bodies of its size with a
    -- content type, headers and metadata that it keeps as they are) is answered by S3Store as it
    -- is by MemoryStore, started on the objects of the bucket and asked at the times at which the
    -- bucket stores; and the bucket then holds what MemoryStore holds. MemoryStore is asked for
    -- encryption in each Put that S3Store or the bucket encrypts, and otherwise for the same.
    pub run_s3-refines :
        (rs : List Request) (s : S)
        → All IsSendable rs
        → ((run_s3 rs s).0 ≡ (run_memory c b.encrypts s3 (timed rs s) (view c client b s3 s)).0)
          × (view c client b s3 (run_s3 rs s).1
              ≡ (run_memory c b.encrypts s3 (timed rs s) (view c client b s3 s)).1)
    unfolding run_s3 run_memory timed
    run_s3-refines [] s sendable = (refl, refl)
    run_s3-refines (r ∷ rs) s sendable =
        let (h, i) = ask-Agrees r s sendable.0 in
        let (j, k) = run_s3-refines rs (ask_s3 r s).1 sendable.1 in
        (rw h (rw (sym i) (rw j refl)), rw (sym i) k)
