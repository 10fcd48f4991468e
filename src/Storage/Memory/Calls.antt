-- ===== src/Storage/Memory/Calls.antt =====
-- The operations of `MemoryStore` that may change it, as one type of calls.
use deb_s.Prelude.{ℕ, ◌≡◌, arith, Option, Text, Error, Result, err, Exec, ◌>>=◌}
use deb_s.Digest.{Codec}
use deb_s.Storage.Types.{PutOptions, CopyOptions}
use deb_s.Storage.Memory.{MemoryStore, put, delete, delete_if_match, copy}

-- Each call has its context and the time at which it is made.
pub data Call : Type 0 where
  put_call : Option Error → ℕ → Text → Result Text → PutOptions → Call
  delete_call : Option Error → Text → Call
  delete_if_match_call : Option Error → Text → Text → Call
  copy_call : Option Error → ℕ → Text → Text → CopyOptions → Call

unfoldable pub perform : Codec → Call → Exec MemoryStore (Unit {0})
perform c (put_call ctx now key body options) = put c ctx now key body options
perform c (delete_call ctx key) = delete ctx key
perform c (delete_if_match_call ctx key etag) = delete_if_match ctx key etag
perform c (copy_call ctx now source destination options) = copy ctx now source destination options

-- A Put, Delete, DeleteIfMatch or Copy of MemoryStore that returns an error leaves the store as
-- it was.
pub perform-err :
    (c : Codec) (call : Call) (s : MemoryStore) (e : Error)
    → (perform c call s).0 ≡ err e
    → (perform c call s).1 ≡ s
unfolding perform put delete delete_if_match copy ◌>>=◌
perform-err c (put_call ctx now key body options) s e h = ground arith
perform-err c _ s e h = ground arith
