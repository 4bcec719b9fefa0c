-- ===== src/Broker/Quota/Tests.antt =====
-- Runs of the reservations on concrete tables, and the theorems at them.
use quanquant.Base.{◌≤◌, ◌≡◌, refl, List, [], ◌∷◌, arith}
use quanquant.Broker.Types.{sim}
use quanquant.Broker.Quota.{quota_used_today, reserve_quota, confirm_quota, release_quota, settle}
use quanquant.Broker.Quota.Laws.{IsWithin}
use quanquant.Broker.Quota.Runs.{
  QuotaCall, reserve, confirm, release, run, call, settlements, settlements-le, run-IsWithin,
}

abbrev calls : List QuotaCall
calls =
    reserve "a" 1 sim "2026-09-01" 6
    ∷ reserve "b" 1 sim "2026-09-01" 5
    ∷ release "a"
    ∷ reserve "c" 1 sim "2026-09-01" 5
    ∷ confirm "a"
    ∷ confirm "c"
    ∷ release "c"
    ∷ []

-- "b" does not fit beside "a"; once "a" is released "c" does.
run-calls : quota_used_today 1 sim "2026-09-01" (run 10 calls []) ≡ 5
unfolding run call reserve_quota confirm_quota release_quota settle
run-calls = refl

settlements-calls : settlements 10 "c" calls [] ≡ 1
unfolding settlements call reserve_quota confirm_quota release_quota settle
settlements-calls = refl

empty-IsWithin : IsWithin 10 []
unfolding quota_used_today
empty-IsWithin u m d = omega arith

run-IsWithin_example : IsWithin 10 (run 10 calls [])
run-IsWithin_example = run-IsWithin 10 calls [] empty-IsWithin

settlements-le_example : settlements 10 "c" calls [] ≤ 1
settlements-le_example = settlements-le 10 "c" calls []
