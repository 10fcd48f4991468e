-- ===== src/Cli/Exists.antt =====
-- internal/cli/commands.go: the verdict of exists.
use deb_s.Prelude.{
  ◌≡◌, refl, ap, true, Option, some, List, [], ◌∷◌, Text, Result, ok, any, All, Bool-cases, inl,
  inr, ◌↔◌,
}
use deb_s.Storage.Types.{Store}
use deb_s.Query
use deb_s.Query.{Match}
use deb_s.Cli.CommandLine.{Invocation, component_for, all_found}
use deb_s.Cli.{Machine, exists_command}

all_found_lem :
    (matches : List Match) → (all_found matches ≡ ok tt) ↔ All (λ m. m.is_found ≡ true) matches
unfolding all_found any
all_found_lem [] = (λ h. tt, λ h. refl)
all_found_lem (m ∷ matches) = elim (Bool-cases m.is_found) [
  | inl e ↦ rw e (let (to, from) = all_found_lem matches in (λ h. (refl, to h), λ h. from h.1))
  | inr e ↦ rw e (λ h. cc, λ h. cc)
]

some_first :
    {S : Type 0} (r r' : Result (Unit {0})) (s s' : S)
    → ◌≡◌ {A = Option (Result (Unit {0}) × S)} (some (r, s)) (some (r', s'))
    → r ≡ r'
some_first {S} r r' s s' h =
    let same : ◌≡◌ {A = Result (Unit {0}) × S} (r, s) (r', s') = cc in ap (λ p. p.0) same

-- When the store is made and Exists answers, the command exists succeeds exactly when each of the
-- matches was found.
pub exists_command-found :
    {S : Type 0} (machine : Machine S) (inv : Invocation) (store : Store S) (names : List Text)
    (version architecture : Text) (s s' : S) (matches : List Match)
    → machine.new_store inv.cfg ≡ ok store
    → Query.exists store machine.host inv.cfg.codename
        (component_for inv.cfg)
        architecture
        version
        names
        s
      ≡ (ok matches, s')
    → (exists_command machine inv names version architecture s ≡ some (ok tt, s'))
      ↔ All (λ m. m.is_found ≡ true) matches
unfolding exists_command
exists_command-found machine inv store names version architecture s s' matches made found =
    rw made (
      rw found (
        let (to, from) = all_found_lem matches in
        (
          λ h. to (some_first (all_found matches) (ok tt) s' s' h),
          λ h. ap (λ r. some (r, s')) (from h),
        )))
