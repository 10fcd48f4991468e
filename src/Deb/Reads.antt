-- ===== src/Deb/Reads.antt =====
-- internal/deb: what the two readers give when they are read to the end, whatever the buffer.
use deb_s.Prelude.{
  ℕ, zero, suc, ◌-◌, ◌<◌, ◌≤◌, ◌≡◌, refl, arith, true, false, ◌&&◌, leb, ◌==◌, if◌then◌else◌,
  Option, none, some, [], ◌∷◌, ◌++◌, Text, equal, length, take, drop, take-drop, take-split,
  length-split, length-drop, Error, failed, end_of_file, unexpected_end, Bool-cases, inl, inr,
}
use deb_s.Deb.Ar.{Archive, read_member, advance, stopped, is_end}
use deb_s.Deb.Control.{Stream, read_limited, limited, body_stream, unexpected_stop}

-- `io.ReadAll` ends well at `io.EOF`.
abbrev pub ending : Error → Option Error
ending (failed end_of_file) = none
ending e = some e

abbrev pub in_front : Text → Option Stream → Option Stream
in_front bytes none = none
in_front bytes (some s) = some (record s { bytes = bytes ++ s.bytes })

module _ {R : Type 0} (read : R → (Text × Option Error) × R) where
  abbrev pub go_on : (Text × Option Error) × R → (R → Option Stream) → Option Stream
  go_on ((bytes, none), r) rest = in_front bytes (rest r)
  go_on ((bytes, some e), r) rest = some (record { bytes = bytes; stop = ending e })

  -- `io.ReadAll`; `none` means that the fuel ran out.
  unfoldable pub read_all : ℕ → R → Option Stream
  read_all zero r = none
  read_all (suc fuel) r = go_on (read r) (λ r'. read_all fuel r')

leb-member :
    (k r : ℕ) (xs : Text)
    → k ≤ r
    → leb (r - length (take k xs)) (length (drop k xs)) ≡ leb r (length xs)
leb-member k r xs h = let p = length-split k xs in let q = length-drop k xs in ground arith

leb-limited :
    (k r : ℕ) (xs : Text)
    → k ≤ r
    → leb (length (drop k xs)) (r - length (take k xs)) ≡ leb (length xs) r
leb-limited k r xs h = let p = length-split k xs in let q = length-drop k xs in ground arith

-- A buffer within what remains.
abbrev within : ℕ → ℕ → ℕ
within n remaining = if leb n remaining then n else remaining

within-bound : (n remaining : ℕ) → within n remaining ≤ remaining
within-bound n remaining = ground arith

positive : (n : ℕ) → (suc n == 0) ≡ false
positive n = ground arith

always_below : (n : ℕ) → leb 0 n ≡ true
always_below n = ground arith

never_below : (n : ℕ) → leb (suc n) 0 ≡ false
never_below n = ground arith

within-pos : (n remaining : ℕ) → 0 < n → 0 < within n (suc remaining)
within-pos n remaining pos = ground arith

unexpected_stop_lem :
    (stop : Option Error)
    → (if is_end (stopped stop (failed end_of_file)) && true
        then failed unexpected_end
        else stopped stop (failed end_of_file))
      ≡ unexpected_stop stop
unexpected_stop_lem none = refl
unexpected_stop_lem (some e) = elim (Bool-cases (is_end e)) [
  | inl h ↦ rw h refl
  | inr h ↦ rw h refl
]

ending_lem : (e : Error) → is_end e ≡ false → ending e ≡ some e
ending_lem (failed end_of_file) h = cc
ending_lem _ h = refl

ending-unexpected_stop :
    (stop : Option Error) → ending (unexpected_stop stop) ≡ some (unexpected_stop stop)
ending-unexpected_stop none = refl
ending-unexpected_stop (some e) = elim (Bool-cases (is_end e)) [
  | inl h ↦ rw h refl
  | inr h ↦ rw h (ending_lem e h)
]

module _ (n : ℕ) (pos : 0 < n) where
  -- What is left after a read is shorter.
  shorter :
      (remaining : ℕ) (x : ℕ) (xs : Text)
      → length (drop (within n (suc remaining)) (x ∷ xs)) ≤ length xs
  shorter remaining x xs =
      omega (arith, length-drop (within n (suc remaining)) (x ∷ xs), within-pos n remaining pos)

  limited_step :
      (limit x : ℕ) (xs : Text) (stop : Option Error)
      → read_limited n
          (record { reader = record { bytes = x ∷ xs; stop = stop }; remaining = suc limit })
        ≡ (
          (take (within n (suc limit)) (x ∷ xs), none),
          record {
            reader = record { bytes = drop (within n (suc limit)) (x ∷ xs); stop = stop };
            remaining = suc limit - length (take (within n (suc limit)) (x ∷ xs));
          },
        )
  unfolding read_limited equal
  limited_step limit x xs stop = rw (positive limit) refl

  limited_end :
      (limit : ℕ) (stop : Option Error)
      → read_limited n
          (record { reader = record { bytes = []; stop = stop }; remaining = suc limit })
        ≡ (
          ([], some (stopped stop (failed end_of_file))),
          record { reader = record { bytes = []; stop = stop }; remaining = suc limit - 0 },
        )
  unfolding read_limited equal
  limited_end limit stop = rw (positive limit) refl

  limited-split :
      (k limit : ℕ) (bytes : Text) (stop : Option Error)
      → k ≤ limit
      → in_front (take k bytes) (
          some (
            limited (limit - length (take k bytes)) (record { bytes = drop k bytes; stop = stop })))
        ≡ some (limited limit (record { bytes = bytes; stop = stop }))
  unfolding limited
  limited-split k limit bytes stop h =
      rw (leb-limited k limit bytes h) (elim (Bool-cases (leb (length bytes) limit)) [
        | inl e ↦ rw e (rw (take-drop k bytes) refl)
        | inr e ↦ rw e (rw (take-split k limit bytes h) refl)
      ])

  -- Reading a sizeLimitedReader to its end, with any buffer that is not empty and with more
  -- rounds than bytes, gives the stream below it if that is within the limit, and else the bytes
  -- up to the limit and then the limit's error. The stream below ends with an error other than
  -- io.EOF, or properly.
  pub read_all-limited :
      (fuel limit : ℕ) (bytes : Text) (stop : Option Error)
      → length bytes < fuel
      → ending (stopped stop (failed end_of_file)) ≡ stop
      → read_all
          (read_limited n)
          fuel
          (record { reader = record { bytes = bytes; stop = stop }; remaining = limit })
        ≡ some (limited limit (record { bytes = bytes; stop = stop }))
  unfolding read_all read_limited limited equal
  read_all-limited zero limit bytes stop enough plain = absurd (omega arith)
  read_all-limited (suc fuel) zero [] stop enough plain = rw plain refl
  read_all-limited (suc fuel) zero (x ∷ xs) stop enough plain = rw (never_below (length xs)) refl
  read_all-limited (suc fuel) (suc limit) [] stop enough plain =
      rw (limited_end limit stop) (rw (always_below (suc limit)) (rw plain refl))
  read_all-limited (suc fuel) (suc limit) (x ∷ xs) stop enough plain =
      rw (limited_step limit x xs stop) (
        rw
          (read_all-limited fuel (suc limit - length (take (within n (suc limit)) (x ∷ xs)))
            (drop (within n (suc limit)) (x ∷ xs)) stop (omega (arith, shorter limit x xs)) plain)
          (limited-split (within n (suc limit)) (suc limit) (x ∷ xs) stop
            (within-bound n (suc limit))))

  abbrev at_rest : Archive → Text → ℕ → Archive
  at_rest a bytes remaining = record a { rest = bytes; remaining = remaining }

  member_step :
      (a : Archive) (remaining x : ℕ) (xs : Text)
      → read_member n (at_rest a (x ∷ xs) (suc remaining)) ≡ (
        (take (within n (suc remaining)) (x ∷ xs), none),
        at_rest
            (advance (within n (suc remaining)) (record a { rest = x ∷ xs }))
            (drop (within n (suc remaining)) (x ∷ xs))
            (suc remaining - length (take (within n (suc remaining)) (x ∷ xs))),
      )
  unfolding read_member equal
  member_step a remaining x xs = rw (positive remaining) refl

  member_end :
      (a : Archive) (remaining : ℕ)
      → read_member n (at_rest a [] (suc remaining))
        ≡ (([], some (unexpected_stop a.stop)), at_rest a [] (suc remaining))
  unfolding read_member equal
  member_end a remaining = rw (positive remaining) (rw (unexpected_stop_lem a.stop) refl)

  body-split :
      (a b : Archive) (k remaining : ℕ) (bytes : Text)
      → k ≤ remaining
      → b.stop ≡ a.stop
      → in_front
          (take k bytes)
          (some (body_stream (at_rest b (drop k bytes) (remaining - length (take k bytes)))))
        ≡ some (body_stream (at_rest a bytes remaining))
  unfolding body_stream
  body-split a b k remaining bytes h same =
      rw (leb-member k remaining bytes h) (rw (take-split k remaining bytes h) (rw same refl))

  -- Reading the body of an archive member to its end, with any buffer that is not empty and with
  -- more rounds than bytes, gives the bytes of the member, and an error if the archive ends
  -- before they do.
  pub read_all-body_stream :
      (fuel remaining : ℕ) (bytes : Text) (a : Archive)
      → length bytes < fuel
      → read_all (read_member n) fuel (at_rest a bytes remaining)
        ≡ some (body_stream (at_rest a bytes remaining))
  unfolding read_all read_member body_stream equal
  read_all-body_stream zero remaining bytes a enough = absurd (omega arith)
  read_all-body_stream (suc fuel) zero bytes a enough = rw (always_below (length bytes)) refl
  read_all-body_stream (suc fuel) (suc remaining) [] a enough =
      rw (member_end a remaining)
        (rw (never_below remaining) (rw (ending-unexpected_stop a.stop) refl))
  read_all-body_stream (suc fuel) (suc remaining) (x ∷ xs) a enough =
      rw (member_step a remaining x xs) (
        rw
          (read_all-body_stream fuel
            (suc remaining - length (take (within n (suc remaining)) (x ∷ xs)))
            (drop (within n (suc remaining)) (x ∷ xs))
            (advance (within n (suc remaining)) (record a { rest = x ∷ xs }))
            (omega (arith, shorter remaining x xs)))
          (body-split a (advance (within n (suc remaining)) (record a { rest = x ∷ xs }))
            (within n (suc remaining)) (suc remaining) (x ∷ xs) (within-bound n (suc remaining))
            refl))
