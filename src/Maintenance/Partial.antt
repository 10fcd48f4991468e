-- ===== src/Maintenance/Partial.antt =====
-- Procedures that return what they counted so far beside an error.
use deb_s.Prelude.{Error, Result, ok, err}

abbrev pub Partial : Type 0 → Type 0 → Type 0
Partial S R = S → (R × Result (Unit {0})) × S

module _ {S R : Type 0} where
  abbrev pub stop : R → Error → Partial S R
  stop r e s = ((r, err e), s)

  abbrev pub done : R → Partial S R
  done r s = ((r, ok tt), s)

  abbrev go_on_with : Result (Unit {0}) → R → (R → Partial S R) → Partial S R
  go_on_with (ok _) r rest s = rest r s
  go_on_with (err e) r rest s = ((r, err e), s)

  -- The rest, where no error came before it.
  abbrev pub go_on : Partial S R → (R → Partial S R) → Partial S R
  go_on first rest s = let (q, s') = first s in go_on_with q.1 q.0 rest s'
