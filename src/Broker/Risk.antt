-- ===== src/Broker/Risk.antt =====
-- The risk guard (quanquant/broker/risk.py): the checks before an order is placed or changed, with
-- the quota, the confirmation token, the new order and the audit in one transaction. What is
-- refused leaves one audit row and nothing else.
pub mod Gate
pub mod Effects
pub mod Limits
pub mod Confirm
pub mod Switch
mod Tests
use Prim.Native.String.{◌++◌ as str_append}
use quanquant.Base.{
  ℕ, ◌+◌, ◌-◌, String, Bool, true, false, ◌&&◌, ◌||◌, not, Option, none, some, List, [], ◌∷◌, ◌++◌,
  leb, ltb, ◌==◌, str_eq, if◌then◌else◌,
}
use quanquant.Base.Int.{ℤ, pos, pos_part, ltb_ℤ, leb_ℤ}
use quanquant.Broker.Types.{Mode, OrderRequest, is_real, is_cover, is_lmt}
use quanquant.Broker.Quota.{Quotas, reserve_quota}
use quanquant.Broker.Orders.{
  Order, Orders, NewOrder, Created, created, payload_differs, create_order, count_orders_today,
}
use quanquant.Broker.Cooldowns.{Cooldowns, active_cooldown}
use quanquant.Broker.Tokens.{Tokens, create_confirm_token_row, claim_confirm_token}
use quanquant.Broker.Positions.{OrderAudit}

-- The configuration of a `RiskGuard`.
pub record RiskGuard : Type 0 where
  pub owner_user_ids : List ℕ
  pub symbol_whitelist : List String
  pub max_qty_per_order : ℕ
  pub max_qty_per_day : ℕ
  pub max_orders_per_day : ℕ
  pub confirm_token_ttl_ms : ℕ

pub record KillSwitchState : Type 0 where
  pub global_on : Bool
  pub per_user : List (ℕ × Bool)
  pub global_actor : Option ℕ

-- `per_user.get(uid, False)`, and the assignment to a key.
abbrev pub self_on : ℕ → List (ℕ × Bool) → Bool
self_on u [] = false
self_on u ((v, b) ∷ m) = if v == u then b else self_on u m

abbrev pub switch_self : ℕ → Bool → List (ℕ × Bool) → List (ℕ × Bool)
switch_self u b [] = (u, b) ∷ []
switch_self u b ((v, c) ∷ m) = if v == u then (u, b) ∷ m else (v, c) ∷ switch_self u b m

unfoldable pub blocked : ℕ → KillSwitchState → Bool
blocked u k = k.global_on || self_on u k.per_user

abbrev pub elem_ℕ : ℕ → List ℕ → Bool
elem_ℕ a [] = false
elem_ℕ a (x ∷ xs) = x == a || elem_ℕ a xs

abbrev pub elem_str : String → List String → Bool
elem_str a [] = false
elem_str a (x ∷ xs) = str_eq x a || elem_str a xs

unfoldable pub is_owner : RiskGuard → ℕ → Bool
is_owner g actor = elem_ℕ actor g.owner_user_ids

pub data SwitchScope : Type 0 where
  self global other : SwitchScope

-- The reasons of a `RiskError` and of an `AuthorizationError`.
pub data Refusal : Type 0 where
  not_owner not_order_owner kill_switch cooling_off not_whitelisted : Refusal
  qty_over_limit orders_over_limit quota_full needs_confirm bad_qty bad_price : Refusal

-- `value_error` is an exception that the guard does not catch.
pub data Checked {ℓ} (A : Type ℓ) : Type ℓ where
  passed : A → Checked A
  refused : Refusal → Checked A
  value_error : Checked A

unfoldable pub set_kill_switch :
    RiskGuard → Bool → SwitchScope → ℕ → KillSwitchState → Checked (Unit {0}) × KillSwitchState
set_kill_switch g value scope actor k =
    if is_owner g actor
    then (elim scope [
      | self ↦ (passed tt, record k { per_user = switch_self actor value k.per_user })
      | global ↦ (passed tt, record k { global_on = value; global_actor = some actor })
      | other ↦ (value_error, k)
    ])
    else (refused not_owner, k)

-- The tables that the guard reads and writes.
pub record Db : Type 0 where
  pub quotas : Quotas
  pub orders : Orders
  pub cooldowns : Cooldowns
  pub tokens : Tokens
  pub audits : List OrderAudit

abbrev pub audit_row : ℕ → Mode → String → String → Option String → OrderAudit
audit_row actor mode action result rule = record {
  actor_user_id = actor;
  mode = mode;
  action = action;
  result = result;
  rule = rule;
}

-- `_audit_reject`, after the rollback of the transaction
abbrev pub audit_reject : ℕ → Mode → String → Db → Db
audit_reject actor mode action db = record db {
  audits = db.audits ++ audit_row actor mode "risk_reject" "rejected" (some action) ∷ [];
}

-- What a token carries.
pub record TokenData : Type 0 where
  pub jti : String
  pub actor_user_id : ℕ
  pub payload_hash : String

abbrev pub is_free : ℕ → ℕ → Db → Bool
is_free actor now db = elim (active_cooldown actor now db.cooldowns) [
  | none ↦ true
  | some _ ↦ false
]

-- A call of `check_place`.
pub record PlaceCall : Type 0 where
  pub req : OrderRequest
  pub actor_user_id : ℕ
  pub mode : Mode
  pub broker : String
  pub account : String
  pub request_hash : String
  pub confirm_token : Option String
  pub now : ℕ

abbrev pub order_of : PlaceCall → String → NewOrder
order_of c trading_day = record {
  client_order_id = c.req.client_order_id;
  request_hash = c.request_hash;
  user_id = c.actor_user_id;
  mode = c.mode;
  broker = c.broker;
  account = c.account;
  symbol = c.req.symbol;
  action = c.req.action;
  qty = c.req.qty;
  price = c.req.price;
  price_type = c.req.price_type;
  order_type = c.req.order_type;
  octype = c.req.octype;
  trading_day = trading_day;
}

-- The checks of `check_place` that only read, in their order.
unfoldable pub place_gate : RiskGuard → KillSwitchState → PlaceCall → String → Db → Option Refusal
place_gate g k c trading_day db =
    if not (is_owner g c.actor_user_id)
    then some not_owner
    else if blocked c.actor_user_id k
    then some kill_switch
    else if not (is_cover c.req.octype) && not (is_free c.actor_user_id c.now db)
    then some cooling_off
    else if not (elem_str c.req.symbol g.symbol_whitelist)
    then some not_whitelisted
    else if ltb g.max_qty_per_order c.req.qty
    then some qty_over_limit
    else if leb g.max_orders_per_day
        (count_orders_today c.actor_user_id c.mode trading_day db.orders)
    then some orders_over_limit
    else none

-- A call of `check_update` on an order.
pub record UpdateCall : Type 0 where
  pub order : Order
  pub actor_user_id : ℕ
  pub new_qty : ℤ
  pub new_price : Option ℤ
  pub request_hash : String
  pub confirm_token : Option String
  pub now : ℕ

abbrev pub price_allowed : Order → Option ℤ → Bool
price_allowed o none = true
price_allowed o (some p) = if is_lmt o.price_type then ltb_ℤ (pos 0) p else leb_ℤ (pos 0) p

-- The checks of `check_update` that only read, in their order.
unfoldable pub update_gate : RiskGuard → KillSwitchState → UpdateCall → Option Refusal
update_gate g k c =
    if not (is_owner g c.actor_user_id)
    then some not_owner
    else if not (c.order.user_id == c.actor_user_id)
    then some not_order_owner
    else if leb_ℤ c.new_qty (pos 0)
    then some bad_qty
    else if not (price_allowed c.order c.new_price)
    then some bad_price
    else if blocked c.actor_user_id k
    then some kill_switch
    else if not (elem_str c.order.symbol g.symbol_whitelist)
    then some not_whitelisted
    else if ltb_ℤ (pos g.max_qty_per_order) c.new_qty
    then some qty_over_limit
    else none

unfoldable pub reservation_id_for_update : String → String → String
reservation_id_for_update client_order_id request_hash =
    str_append client_order_id (str_append ":update:" request_hash)

-- The quota row of an update: a quantity that grows reserves what it grows by.
unfoldable pub reserve_delta : RiskGuard → UpdateCall → Quotas → Bool × Quotas
reserve_delta g c quotas =
    if ltb c.order.qty (pos_part c.new_qty)
    then reserve_quota (reservation_id_for_update c.order.client_order_id c.request_hash)
        c.actor_user_id c.order.mode c.order.trading_day (pos_part c.new_qty - c.order.qty)
        g.max_qty_per_day quotas
    else (true, quotas)

-- `loads` opens a signed text at a time (none: a bad or an expired signature).
module _ (loads : ℕ → String → Option TokenData) where
  -- `_claim_confirm_token`
  unfoldable pub claim_token : ℕ → String → Option String → ℕ → Tokens → Bool × Tokens
  claim_token actor payload_hash none now t = (false, t)
  claim_token actor payload_hash (some token) now t =
      if str_eq token "" then (false, t) else (elim (loads now token) [
        | none ↦ (false, t)
        | some d ↦
            if not (d.actor_user_id == actor) || not (str_eq d.payload_hash payload_hash)
            then (false, t)
            else claim_confirm_token d.jti actor payload_hash now t
      ])

  -- The token is claimed in real mode only.
  unfoldable pub confirmed : Mode → ℕ → String → Option String → ℕ → Tokens → Bool × Tokens
  confirmed mode actor payload_hash token now t =
      if is_real mode then claim_token actor payload_hash token now t else (true, t)

-- The end of `check_place`: the order, the audit and the commit.
abbrev pub place_order : PlaceCall → Quotas → Tokens → Db → Created → Checked Order × Db
place_order c quotas' tokens' db payload_differs = (value_error, db)
place_order c quotas' tokens' db (created o orders') = (
  passed o,
  record db {
    quotas = quotas';
    tokens = tokens';
    orders = orders';
    audits = db.audits ++ audit_row c.actor_user_id c.mode "place" "ok" none ∷ [];
  },
)

-- What follows the reservation and the claim, by their answers.
abbrev pub place_finish :
    PlaceCall → String → Db → Bool × Quotas → Bool × Tokens → Checked Order × Db
place_finish c day db (false, _) _ =
    (refused quota_full, audit_reject c.actor_user_id c.mode "place" db)
place_finish c day db (true, _) (false, _) =
    (refused needs_confirm, audit_reject c.actor_user_id c.mode "place" db)
place_finish c day db (true, quotas') (true, tokens') =
    place_order c quotas' tokens' db (create_order (order_of c day) c.now db.orders)

abbrev pub update_finish : UpdateCall → Db → Bool × Quotas → Bool × Tokens → Checked (Unit {0}) × Db
update_finish c db (false, _) _ =
    (refused quota_full, audit_reject c.actor_user_id c.order.mode "update" db)
update_finish c db (true, _) (false, _) =
    (refused needs_confirm, audit_reject c.actor_user_id c.order.mode "update" db)
update_finish c db (true, quotas') (true, tokens') = (
  passed tt,
  record db {
    quotas = quotas';
    tokens = tokens';
    audits = db.audits ++ audit_row c.actor_user_id c.order.mode "update" "ok" none ∷ [];
  },
)

-- `trading_day_for` names the calendar day of a time.
module _ (loads : ℕ → String → Option TokenData) (trading_day_for : ℕ → String) where
  -- The rest of `check_place`.
  unfoldable pub place_write : RiskGuard → PlaceCall → Db → Checked Order × Db
  place_write g c db =
      let day = trading_day_for c.now in
      place_finish c day db
        (reserve_quota c.req.client_order_id c.actor_user_id c.mode day c.req.qty g.max_qty_per_day
          db.quotas)
        (confirmed loads c.mode c.actor_user_id c.request_hash c.confirm_token c.now db.tokens)

  unfoldable pub check_place : RiskGuard → KillSwitchState → PlaceCall → Db → Checked Order × Db
  check_place g k c db = elim (place_gate g k c (trading_day_for c.now) db) [
    | some r ↦ (refused r, audit_reject c.actor_user_id c.mode "place" db)
    | none ↦ place_write g c db
  ]

module _ (loads : ℕ → String → Option TokenData) where
  unfoldable pub update_write : RiskGuard → UpdateCall → Db → Checked (Unit {0}) × Db
  update_write g c db =
      update_finish c db (reserve_delta g c db.quotas) (
        confirmed loads c.order.mode c.actor_user_id c.request_hash c.confirm_token c.now db.tokens)

  unfoldable pub check_update :
      RiskGuard → KillSwitchState → UpdateCall → Db → Checked (Unit {0}) × Db
  check_update g k c db = elim (update_gate g k c) [
    | some r ↦ (refused r, audit_reject c.actor_user_id c.order.mode "update" db)
    | none ↦ update_write g c db
  ]

-- `issue_confirm_token`, with the random id as an argument: the data that is signed.
unfoldable pub issue_confirm_token :
    RiskGuard → String → ℕ → String → ℕ → Db → Checked TokenData × Db
issue_confirm_token g jti actor payload_hash now db =
    if is_owner g actor
    then (
      passed (record { jti = jti; actor_user_id = actor; payload_hash = payload_hash }),
      record db {
        tokens =
            create_confirm_token_row jti actor payload_hash (now + g.confirm_token_ttl_ms)
              db.tokens;
      },
    )
    else (refused not_owner, db)
