-- ===== src/Lock/Types.antt =====
-- internal/lock/lock.go: owners, options and handles. JSON and contexts are the standard library's.
use deb_s.Prelude.{ℕ, ◌<◌, Bool, Option, some, Text, All, ℤ, Result, ok, Exec, ◌≡◌}

-- A time is a number of nanoseconds, the zero time is 0.
pub record Owner : Type 0 where
  pub token : Text
  pub user : Text
  pub host : Text
  pub pid : ℕ
  pub acquired_at : ℕ

abbrev IsAscii : Text → Type 0
IsAscii t = All (λ c. c < 128) t

-- An owner that JSON keeps: `json.Marshal` replaces bytes that are not UTF-8, and a process id is an
-- `int`.
pub record IsPlain (o : Owner) : Type 0 where
  pub token : IsAscii o.token
  pub user : IsAscii o.user
  pub host : IsAscii o.host
  pub pid : o.pid < 9223372036854775808

-- `json.Marshal` and `json.Unmarshal` at `Owner`. A time after the year 9999 cannot be written.
pub record Json : Type 0 where
  pub marshal : Owner → Result Text
  pub unmarshal : Text → Option Owner
  pub unmarshal-marshal :
      (o : Owner) (body : Text) → IsPlain o → marshal o ≡ ok body → unmarshal body ≡ some o

-- `waitError(ctx)`, and a wait for a delay that the context may end.
pub record Context (S : Type 0) : Type 0 where
  pub check : Exec S (Unit {0})
  pub sleep : ℤ → Exec S (Unit {0})

pub record Options : Type 0 where
  pub owner : Owner
  pub max_attempts : ℤ
  pub timeout : ℤ
  pub initial_backoff : ℤ
  pub max_backoff : ℤ
  pub cache_control : Text
  pub now : ℕ

pub record Handle : Type 0 where
  pub path : Text
  pub owner : Owner
  pub etag : Text
  pub released : Bool

-- What one round of `Acquire` comes to.
pub data Turn : Type 0 where
  held : Handle → Turn
  again given_up : Turn
