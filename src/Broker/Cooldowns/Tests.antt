-- ===== src/Broker/Cooldowns/Tests.antt =====
-- Runs of the cooling-off periods, and the theorems at them.
use quanquant.Base.{◌≡◌, ◌≢◌, refl, none, List, [], ◌∷◌, arith, map}
use quanquant.Broker.Cooldowns.{
  Cooldown, active_cooldown, create_cooldown, lift_cooldown_by_owner, list_active_cooldowns,
}
use quanquant.Broker.Cooldowns.Lockout.{
  CooldownCall, start, take_back, call, run, started-cannot_shorten,
}

-- User 7 tries a shorter period and takes the first one back too late; user 8 starts one as well.
abbrev tries : List CooldownCall
tries = start 7 60 20 ∷ start 8 70 30 ∷ take_back 7 40 ∷ []

ends-tries :
    map
      (λ (c : Cooldown). c.until_ts)
      (list_active_cooldowns 50 (run 25 tries (create_cooldown 7 100 10 []).1))
    ≡ 70 ∷ 100 ∷ []
unfolding list_active_cooldowns run call create_cooldown lift_cooldown_by_owner
ends-tries = refl

started-cannot_shorten_example :
    active_cooldown 7 99 (run 25 tries (create_cooldown 7 100 10 []).1) ≢ none
unfolding create_cooldown
started-cannot_shorten_example =
    started-cannot_shorten 7 100 10 25 [] tries 99 (λ e. cc) (tt, (tt, (λ _. omega arith, tt)))
      (omega arith)
