-- ===== src/Broker/Risk/Switch.antt =====
-- The two levels of the kill switch: who is blocked after a call, and what the switch stops.
use quanquant.Base.{
  ℕ, ◌≡◌, refl, Bool, true, ◌||◌, List, [], ◌∷◌, String, Option, arith, ◌==◌, if◌then◌else◌, inl,
  inr, Option-cases,
}
use quanquant.Broker.Risk.{
  RiskGuard, KillSwitchState, self_on, switch_self, blocked, is_owner, SwitchScope, self, global,
  other, set_kill_switch, refused, TokenData, Db, PlaceCall, UpdateCall, check_place, check_update,
  audit_reject, Refusal, place_gate, update_gate,
}
use quanquant.Broker.Risk.Gate.{place_gate-MayPlace, update_gate-MayUpdate}

self_on-switch_self :
    (actor : ℕ) (value : Bool) (u : ℕ) (m : List (ℕ × Bool))
    → self_on u (switch_self actor value m) ≡ (if actor == u then value else self_on u m)
self_on-switch_self actor value u [] = refl
self_on-switch_self actor value u ((v, c) ∷ m) = ground (arith, self_on-switch_self actor value u m)

-- Who is blocked after an owner's call: a personal switch decides for its owner alone, under the
-- switch for all; the switch for all decides for everybody whose own one is off.
abbrev pub blocked_after : Bool → SwitchScope → ℕ → ℕ → KillSwitchState → Bool
blocked_after value self actor u k =
    k.global_on || (if actor == u then value else self_on u k.per_user)
blocked_after value global actor u k = value || self_on u k.per_user
blocked_after value other actor u k = blocked u k

-- A call of the switch changes who is blocked as `blocked_after` says if the caller is an owner, and
-- changes nothing for anyone otherwise.
pub blocked-set_kill_switch :
    (g : RiskGuard) (value : Bool) (scope : SwitchScope) (actor u : ℕ) (k : KillSwitchState)
    → blocked u (set_kill_switch g value scope actor k).1
      ≡ (if is_owner g actor then blocked_after value scope actor u k else blocked u k)
unfolding blocked set_kill_switch
blocked-set_kill_switch g value self actor u k =
    ground (arith, self_on-switch_self actor value u k.per_user)
blocked-set_kill_switch g value global actor u k = ground arith
blocked-set_kill_switch g value other actor u k = ground arith

module _ (loads : ℕ → String → Option TokenData) (day_for : ℕ → String) (g : RiskGuard) where
  place_stopped :
      (k : KillSwitchState) (c : PlaceCall) (db : Db)
      → blocked c.actor_user_id k ≡ true
      → (r : Refusal) × (check_place loads day_for g k c db
          ≡ (refused r, audit_reject c.actor_user_id c.mode "place" db))
  unfolding check_place
  place_stopped k c db off = elim (Option-cases (place_gate g k c (day_for c.now) db)) [
    | inr (r, e) ↦ (r, rw (e, check_place) refl)
    | inl e ↦ let may = (place_gate-MayPlace g k c (day_for c.now) db e).switched_on in absurd (cc)
  ]

  update_stopped :
      (k : KillSwitchState) (c : UpdateCall) (db : Db)
      → blocked c.actor_user_id k ≡ true
      → (r : Refusal) × (check_update loads g k c db
          ≡ (refused r, audit_reject c.actor_user_id c.order.mode "update" db))
  unfolding check_update
  update_stopped k c db off = elim (Option-cases (update_gate g k c)) [
    | inr (r, e) ↦ (r, rw (e, check_update) refl)
    | inl e ↦ let may = (update_gate-MayUpdate g k c e).switched_on in absurd (cc)
  ]

  -- Once an owner has switched the trading of all off, every placement and every change by anyone is
  -- refused and leaves one audit row, whatever personal switches say.
  pub set_kill_switch_stops :
      (k : KillSwitchState) (actor : ℕ) (c : PlaceCall) (d : UpdateCall) (db : Db)
      → is_owner g actor ≡ true
      → ((r : Refusal) × (check_place loads day_for g (set_kill_switch g true global actor k).1 c db
            ≡ (refused r, audit_reject c.actor_user_id c.mode "place" db)))
        × ((r : Refusal) × (check_update loads g (set_kill_switch g true global actor k).1 d db
              ≡ (refused r, audit_reject d.actor_user_id d.order.mode "update" db)))
  set_kill_switch_stops k actor c d db owner =
      let after : (u : ℕ) → blocked u (set_kill_switch g true global actor k).1 ≡ true =
        λ u. rw (blocked-set_kill_switch g true global actor u k, owner) refl in
      let k' = (set_kill_switch g true global actor k).1 in
      (
        place_stopped k' c db (after c.actor_user_id),
        update_stopped k' d db (after d.actor_user_id),
      )
