-- ===== src/Broker/Risk/Tests.antt =====
-- Runs of the risk guard on concrete calls, and the theorems at them.
use quanquant.Base.{
  ℕ, ◌≡◌, ◌≢◌, ◌≤◌, ◌&&◌, ◌+◌, refl, ap, sym, inl, inr, Bool-cases, true, false, none, some, Option,
  List, [], ◌∷◌, String, arith, str_eq, str_eq_iff, ltb, if◌then◌else◌,
}
use mathlib.Core.Option.{none-ne-some}
use quanquant.Base.Int.{pos}
use quanquant.Broker.Types.{real, buy, lmt, rod, auto}
use quanquant.Broker.Orders.{trading_day_for, create_order, count_orders_today}
use quanquant.Broker.Quota.{reserve_quota, quota_used_today}
use quanquant.Broker.Tokens.{create_confirm_token_row, claim_confirm_token}
use quanquant.Broker.Cooldowns.{active_cooldown}
use quanquant.Broker.Samples.{order}
use quanquant.Broker.Risk.{
  RiskGuard, KillSwitchState, blocked, is_owner, global, set_kill_switch, Refusal, refused, Db,
  audit_reject, TokenData, PlaceCall, UpdateCall, place_gate, claim_token, confirmed, place_write,
  check_place, check_update, update_gate, update_write, reserve_delta, reservation_id_for_update,
  issue_confirm_token,
}
use quanquant.Broker.Risk.Effects.{
  PlaceEnds, UpdateEnds, check_place-PlaceEnds, check_update-UpdateEnds,
}
use quanquant.Broker.Risk.Limits.{
  IsLimited, GuardCall, place, update, guarded_call, guarded_run, guarded_run-IsLimited,
}
use quanquant.Broker.Risk.Confirm.{passes, passes-le, claim_token-issue_confirm_token}
use quanquant.Broker.Risk.Switch.{set_kill_switch_stops}

abbrev guard : RiskGuard
guard = record {
  owner_user_ids = 1 ∷ 2 ∷ [];
  symbol_whitelist = "TXF" ∷ [];
  max_qty_per_order = 5;
  max_qty_per_day = 6;
  max_orders_per_day = 3;
  confirm_token_ttl_ms = 120;
}

abbrev all_on : KillSwitchState
all_on = record { global_on = false; per_user = []; global_actor = none }

abbrev nothing_yet : Db
nothing_yet = record { quotas = []; orders = []; cooldowns = []; tokens = []; audits = [] }

-- A signer that knows one text, up to a time.
abbrev opens : ℕ → String → Option TokenData
opens now s =
    if str_eq s "text" && ltb now 1000
    then some (record { jti = "j"; actor_user_id = 1; payload_hash = "h1" })
    else none

abbrev one_day : ℕ → String
one_day = trading_day_for (λ _. "2026-09-01")

abbrev buys_three : PlaceCall
buys_three = record {
  req = record {
    client_order_id = "c1";
    symbol = "TXF";
    action = buy;
    qty = 3;
    price = pos 20000;
    price_type = lmt;
    order_type = rod;
    octype = auto;
    user_id = 1;
  };
  actor_user_id = 1;
  mode = real;
  broker = "shioaji";
  account = "A1";
  request_hash = "h1";
  confirm_token = some "text";
  now = 50;
}

abbrev raises_to_five : UpdateCall
raises_to_five = record {
  order = order;
  actor_user_id = 1;
  new_qty = pos 5;
  new_price = none;
  request_hash = "h2";
  confirm_token = some "text";
  now = 60;
}

-- A token, the placement that it confirms, its replay under another key, and a change.
abbrev session : List GuardCall
session =
    place all_on buys_three
    ∷ place all_on (record buys_three { req = record buys_three.req { client_order_id = "c2" } })
    ∷ update all_on raises_to_five
    ∷ []

abbrev with_token : Db
with_token = (issue_confirm_token guard "j" 1 "h1" 10 nothing_yet).1

owner_1 : is_owner guard 1 ≡ true
unfolding is_owner
owner_1 = refl

owner_2 : is_owner guard 2 ≡ true
unfolding is_owner
owner_2 = refl

passes-session : passes opens one_day guard "text" session with_token ≡ 1
unfolding passes guarded_call check_place place_write place_gate blocked is_owner count_orders_today
    active_cooldown reserve_quota confirmed claim_token claim_confirm_token create_order
    issue_confirm_token create_confirm_token_row check_update update_gate update_write reserve_delta
    reservation_id_for_update trading_day_for
passes-session = refl

carries_j : (now : ℕ) (d : TokenData) → opens now "text" ≡ some d → d.jti ≡ "j"
carries_j now d e = elim (Bool-cases (ltb now 1000)) [
  | inl soon ↦ ap (jti_of d) (sym (rw soon at e))
  | inr late ↦ absurd (none-ne-some d (rw late at e))
]
  where
    jti_of : TokenData → Option TokenData → String
    jti_of d none = d.jti
    jti_of d (some e) = e.jti

passes-le_example : passes opens one_day guard "text" session with_token ≤ 1
passes-le_example =
    passes-le opens "text" "j" carries_j one_day guard 1 "h1" 10 session nothing_yet refl
      (tt, (tt, (tt, tt)))

text_not_empty : ◌≢◌ {A = String} "text" ""
text_not_empty = ground (arith, str_eq_iff "text" "")

claim_token-issue_confirm_token_example :
    (claim_token opens 1 "h1" (some "text") 50 with_token.tokens).0
    ≡ (true && true) && ltb 50 (10 + 120)
claim_token-issue_confirm_token_example =
    claim_token-issue_confirm_token opens guard "text" "j" 1 "h1" 10 nothing_yet 1 "h1" 50
      text_not_empty refl owner_1 refl

check_place-PlaceEnds_example :
    PlaceEnds opens guard all_on buys_three "2026-09-01" with_token
      (check_place opens one_day guard all_on buys_three with_token)
unfolding trading_day_for
check_place-PlaceEnds_example =
    check_place-PlaceEnds opens guard all_on one_day buys_three with_token

check_update-UpdateEnds_example :
    UpdateEnds opens guard all_on raises_to_five with_token
      (check_update opens guard all_on raises_to_five with_token)
check_update-UpdateEnds_example =
    check_update-UpdateEnds opens guard all_on raises_to_five with_token

nothing_yet-IsLimited : IsLimited guard nothing_yet
unfolding quota_used_today count_orders_today
nothing_yet-IsLimited = record { quantity = λ u m d. omega arith; count = λ u m d. omega arith }

guarded_run-IsLimited_example :
    IsLimited guard (guarded_run opens one_day guard session nothing_yet)
guarded_run-IsLimited_example =
    guarded_run-IsLimited opens one_day guard session nothing_yet nothing_yet-IsLimited

set_kill_switch_stops_example :
    ((r : Refusal) × (check_place opens one_day guard
          (set_kill_switch guard true global 2 all_on).1
          buys_three
          with_token
        ≡ (refused r, audit_reject 1 real "place" with_token)))
    × ((r : Refusal) × (check_update opens guard
            (set_kill_switch guard true global 2 all_on).1
            raises_to_five
            with_token
          ≡ (refused r, audit_reject 1 real "update" with_token)))
set_kill_switch_stops_example =
    set_kill_switch_stops opens one_day guard all_on 2 buys_three raises_to_five with_token owner_2
