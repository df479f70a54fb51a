-- ===== src/Machine/Streaks.antt =====
-- machine.go: what the latest check of a precondition or verify script says after a history of
-- its runs.
use incident_controller.Prelude.{
  refl, if◌then◌else◌, ℤ, Text, false, Option, none, some, List, [], ◌∷◌, ◌≡◌, arith,
}
use incident_controller.Api.Meta.{Time}
use incident_controller.Api.Incident.{Incident, LastCheck, Script}
use incident_controller.Platform.{Platform}
use incident_controller.Machine.Checks.{set_last_check, new_check, checks_of, slot, is_apply}

-- One run: its exit code, output and end.
pub record Run : Type 0 where
  pub exit : Option ℤ
  pub output : Text
  pub at : Time

module _ ⦃p : Platform⦄ where
  -- The runs recorded in turn; the list has the newest first.
  unfoldable pub record_all : Incident → Script → List Run → Incident
  record_all inc s [] = inc
  record_all inc s (r ∷ older) = set_last_check (record_all inc s older) s r.exit r.output r.at

  -- The oldest run of the unbroken row of equal exit codes that ends in the newest one.
  unfoldable pub streak_start : Run → List Run → Run
  streak_start r [] = r
  streak_start r (q ∷ older) =
      let start = streak_start q older in if p.ptr_equal q.exit r.exit then start else r

  abbrev pub latest : Incident → Script → Option LastCheck
  latest inc s = slot (checks_of inc.status.last_checks) s

  set_last_check-latest_new :
      (inc : Incident) (s : Script) (r : Run)
      → latest inc s ≡ none
      → latest (set_last_check inc s r.exit r.output r.at) s
        ≡ some (new_check s r.exit r.output r.at)
  unfolding set_last_check
  set_last_check-latest_new inc s r h = ground arith

  set_last_check-latest :
      (inc : Incident) (s : Script) (r q : Run)
      → is_apply s ≡ false
      → latest inc s ≡ some (new_check s q.exit q.output q.at)
      → latest (set_last_check inc s r.exit r.output r.at) s ≡ (
          if p.ptr_equal q.exit r.exit
          then some (new_check s q.exit q.output q.at)
          else some (new_check s r.exit r.output r.at))
  unfolding set_last_check
  set_last_check-latest inc s r q a h = ground arith

  streak_start-exit : (r : Run) (older : List Run) → (streak_start r older).exit ≡ r.exit
  unfolding streak_start
  streak_start-exit r [] = refl
  streak_start-exit r (q ∷ older) =
      ground (arith, streak_start-exit q older, p.ptr_equal_iff q.exit r.exit)

  -- After a history of precondition or verify runs that starts with no latest check, the latest
  -- check is that of the oldest run of the unbroken row of equal exit codes up to the newest run.
  pub record_all-latest :
      (inc : Incident) (s : Script) (r : Run) (older : List Run)
      → is_apply s ≡ false
      → latest inc s ≡ none
      → let start = streak_start r older in
        latest (record_all inc s (r ∷ older)) s
        ≡ some (new_check s start.exit start.output start.at)
  unfolding record_all streak_start
  record_all-latest inc s r [] a h = set_last_check-latest_new inc s r h
  record_all-latest inc s r (q ∷ older) a h = ground (
    arith,
    record_all-latest inc s q older a h,
    set_last_check-latest (record_all inc s (q ∷ older)) s r (streak_start q older) a,
    streak_start-exit q older,
  )
