-- ===== src/Broker/Risk/Gate.antt =====
-- What a call must satisfy to pass the guard.
use quanquant.Base.{◌≤◌, ◌<◌, ◌≡◌, true, false, none, String, arith, ◌⊎◌}
use quanquant.Base.Int.{pos, ◌≤ℤ◌}
use quanquant.Broker.Types.{is_cover}
use quanquant.Broker.Orders.{count_orders_today}
use quanquant.Broker.Cooldowns.{active_cooldown}
use quanquant.Broker.Risk.{
  RiskGuard, KillSwitchState, blocked, elem_str, is_owner, Db, PlaceCall, place_gate, UpdateCall,
  price_allowed, update_gate,
}

pub record MayPlace (g : RiskGuard) (k : KillSwitchState) (c : PlaceCall) (day : String) (db : Db)
    : Type 0 where
  pub owner : is_owner g c.actor_user_id ≡ true
  pub switched_on : blocked c.actor_user_id k ≡ false
  pub free :
      (is_cover c.req.octype ≡ true) ⊎ (active_cooldown c.actor_user_id c.now db.cooldowns ≡ none)
  pub listed : elem_str c.req.symbol g.symbol_whitelist ≡ true
  pub small : c.req.qty ≤ g.max_qty_per_order
  pub few : count_orders_today c.actor_user_id c.mode day db.orders < g.max_orders_per_day

pub place_gate-MayPlace :
    (g : RiskGuard) (k : KillSwitchState) (c : PlaceCall) (day : String) (db : Db)
    → place_gate g k c day db ≡ none
    → MayPlace g k c day db
unfolding place_gate
place_gate-MayPlace g k c day db e = record {
  owner = ground arith;
  switched_on = ground arith;
  free = ground arith;
  listed = ground arith;
  small = ground arith;
  few = ground arith;
}

pub record MayUpdate (g : RiskGuard) (k : KillSwitchState) (c : UpdateCall) : Type 0 where
  pub owner : is_owner g c.actor_user_id ≡ true
  pub own_order : c.order.user_id ≡ c.actor_user_id
  pub positive : pos 1 ≤ℤ c.new_qty
  pub priced : price_allowed c.order c.new_price ≡ true
  pub switched_on : blocked c.actor_user_id k ≡ false
  pub listed : elem_str c.order.symbol g.symbol_whitelist ≡ true
  pub small : c.new_qty ≤ℤ pos g.max_qty_per_order

pub update_gate-MayUpdate :
    (g : RiskGuard) (k : KillSwitchState) (c : UpdateCall)
    → update_gate g k c ≡ none
    → MayUpdate g k c
unfolding update_gate
update_gate-MayUpdate g k c e = record {
  owner = ground arith;
  own_order = ground arith;
  positive = ground arith;
  priced = ground arith;
  switched_on = ground arith;
  listed = ground arith;
  small = ground arith;
}
