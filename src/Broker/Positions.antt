-- ===== src/Broker/Positions.antt =====
-- The position ledger (quanquant/broker/position_tracker.py, and `find_open_position` to
-- `cas_update_broker_position` of quanquant/broker/repository.py). A fill runs in one transaction:
-- the functions take the ledger and return the new one, or the exception that rolls it back.
pub mod Fills
pub mod Rows
pub mod Measures
pub mod Moves
pub mod Conservation
pub mod Invariant
pub mod Preserved
mod Tests
use quanquant.Base.{
  ℕ, ◌+◌, ◌-◌, ◌*◌, String, Bool, true, false, ◌&&◌, ◌||◌, Option, none, some, List, [], ◌∷◌, ◌++◌,
  leb, ltb, ◌==◌, min, max, str_eq, if◌then◌else◌, find?, count_where, update_where,
}
use quanquant.Base.Int.{ℤ, pos, ◌+ℤ◌, ◌-ℤ◌, ◌*ℕ◌, ltb_ℤ, leb_ℤ}
use quanquant.Broker.Types.{
  Mode, mode_eq, sim, real, Action, buy, sell, OcType, new, cover, auto, Direction, long, short,
  direction_eq,
}
use quanquant.Broker.Orders.{
  Order, Orders, find_order_by_ordno, find_order_by_broker_id, apply_order_fill, save,
}
use quanquant.Journal.Pnl.{compute_pnl}

-- The decimal arithmetic of the program: an amount is a whole number of units, `scale` to the
-- dollar. `quot` is the division by a count, `plus` and `minus` add to and take from an amount that
-- such a division may have given: each rounds to the precision of the context.
pub record Decimals : Type 0 where
  pub scale : ℕ
  pub quot : ℤ → ℕ → ℤ
  pub plus : ℤ → ℤ → ℤ
  pub minus : ℤ → ℤ → ℤ

-- The columns that a position is looked up by, but for the direction.
pub record Scope : Type 0 where
  pub user_id : ℕ
  pub broker : String
  pub account : String
  pub mode : Mode
  pub symbol : String

pub scope_eq : Scope → Scope → Bool
scope_eq a b =
    a.user_id == b.user_id
    && (str_eq a.broker b.broker
        && (str_eq a.account b.account && (mode_eq a.mode b.mode && str_eq a.symbol b.symbol)))

pub record BrokerPosition : Type 0 where
  pub id : ℕ
  pub scope : Scope
  pub direction : Direction
  pub total_opened_qty : ℕ
  pub entry_notional : ℤ
  pub open_fee_total : ℤ
  pub closed_qty : ℕ
  pub exit_notional : ℤ
  pub close_fee_total : ℤ
  -- `status == "open"`
  pub is_open : Bool
  pub version : ℕ
  pub trade_id : Option ℕ
  pub opened_at : ℕ
  pub updated_at : ℕ

abbrev pub Positions : Type 0
Positions = List BrokerPosition

abbrev pub open_in : Scope → Direction → BrokerPosition → Bool
open_in scope direction p =
    scope_eq p.scope scope && (direction_eq p.direction direction && p.is_open)

abbrev pub find_open_position : Scope → Direction → Positions → Option BrokerPosition
find_open_position scope direction = find? (open_in scope direction)

-- The table's check keeps what is closed within what was opened, so nothing is cut off here.
abbrev pub remaining_qty : BrokerPosition → ℕ
remaining_qty p = p.total_opened_qty - p.closed_qty

-- A fill from the broker (quanquant/broker/types.py).
pub record Fill : Type 0 where
  pub broker : String
  pub fill_id : String
  pub ordno : Option String
  pub broker_order_id : Option String
  pub symbol : String
  pub action : Action
  pub price : ℤ
  pub qty : ℕ
  pub fee : Option ℤ
  pub octype : OcType
  pub ts : ℕ
  pub account : String
  pub mode : Mode

abbrev pub fill_scope : ℕ → Fill → Scope
fill_scope user_id f = record {
  user_id = user_id;
  broker = f.broker;
  account = f.account;
  mode = f.mode;
  symbol = f.symbol;
}

-- The numeric and text checks of `Fill.__post_init__`; the enumerations leave the others no case.
unfoldable pub fill_accepted : Fill → Bool
fill_accepted f =
    (ltb 0 f.qty && ltb_ℤ (pos 0) f.price)
    && ((if str_eq f.fill_id "" then false else true)
        && ((if str_eq f.account "" then false else true) && ltb 0 f.ts))

-- `OrderAudit`, but for the hash of the reference and the text of the detail.
pub record OrderAudit : Type 0 where
  pub actor_user_id : ℕ
  pub mode : Mode
  pub action : String
  pub result : String
  pub rule : Option String

-- The trade that a round trip writes.
pub record Trade : Type 0 where
  pub id : ℕ
  pub user_id : ℕ
  pub symbol : String
  pub direction : Direction
  pub entry_time : ℕ
  pub entry_price : ℤ
  pub exit_time : ℕ
  pub exit_price : ℤ
  pub size : ℕ
  pub point_value : ℕ
  pub fee : ℤ
  pub mode : Mode
  pub source : String
  pub pnl : Option ℤ

pub record Ledger : Type 0 where
  pub positions : Positions
  pub orders : Orders
  pub trades : List Trade
  pub next_trade : ℕ
  pub audits : List OrderAudit

-- How a step of the transaction ends: `PositionMismatchError`, `PositionConcurrencyError` and the
-- validation error of a trade leave nothing behind.
pub data Outcome {ℓ} (A : Type ℓ) : Type ℓ where
  ok : A → Outcome A
  mismatch : Outcome A
  conflict : Outcome A
  invalid_trade : Outcome A

infixl 5 ◌>>=◌
abbrev pub ◌>>=◌ {ℓ κ} : {A : Type ℓ} {B : Type κ} → Outcome A → (A → Outcome B) → Outcome B
ok a >>= f = f a
mismatch >>= f = mismatch
conflict >>= f = conflict
invalid_trade >>= f = invalid_trade

abbrev pub at_version : BrokerPosition → BrokerPosition → Bool
at_version p r = r.id == p.id && r.version == p.version

-- `update ... where id = ? and version = ?`: the changed object is written over the row that it
-- was read from, one version up, unless another writer has moved the version.
unfoldable pub cas_update_broker_position :
    BrokerPosition → BrokerPosition → ℕ → Positions → Outcome (BrokerPosition × Positions)
cas_update_broker_position p changed now t =
    let p' : BrokerPosition = record changed { version = p.version + 1; updated_at = now } in
    if count_where (at_version p) t == 1
    then ok (p', update_where (at_version p) (λ _. p') t)
    else conflict

abbrev pub highest_id : Positions → ℕ
highest_id [] = 0
highest_id (p ∷ t) = max p.id (highest_id t)

-- The database gives a new row an id above all others.
abbrev pub new_position : Scope → Direction → ℕ → ℤ → ℤ → ℕ → ℕ → Positions → BrokerPosition
new_position scope direction qty price fee opened_at now t = record {
  id = highest_id t + 1;
  scope = scope;
  direction = direction;
  total_opened_qty = qty;
  entry_notional = price *ℕ qty;
  open_fee_total = fee;
  closed_qty = 0;
  exit_notional = pos 0;
  close_fee_total = pos 0;
  is_open = true;
  version = 0;
  trade_id = none;
  opened_at = opened_at;
  updated_at = now;
}

abbrev pub more_opened : Decimals → ℕ → ℤ → ℤ → BrokerPosition → BrokerPosition
more_opened dec qty price fee p = record p {
  total_opened_qty = p.total_opened_qty + qty;
  entry_notional = p.entry_notional +ℤ price *ℕ qty;
  open_fee_total = dec.plus p.open_fee_total fee;
}

-- `_open_qty`: the open position of the scope and direction grows, or a new one goes in.
unfoldable pub open_qty :
    Decimals → Scope → Direction → ℕ → ℤ → ℤ → ℕ → ℕ → Positions → Outcome Positions
open_qty dec scope direction qty price fee opened_at now t =
    elim (find_open_position scope direction t) [
      | none ↦ ok (t ++ new_position scope direction qty price fee opened_at now t ∷ [])
      | some p ↦ do
        (p', t') ← cas_update_broker_position p (more_opened dec qty price fee p) now t
        ok t'
    ]

abbrev pub audit_fill : ℕ → Mode → String → OrderAudit
audit_fill user_id mode rule = record {
  actor_user_id = user_id;
  mode = mode;
  action = "fill";
  result = "ok";
  rule = some rule;
}

-- `_CST` is eight hours ahead.
abbrev pub utc_to_cst : ℕ → ℕ
utc_to_cst ms = ms + 28_800_000

-- `_POINT_VALUES.get(symbol, 200)`
unfoldable pub point_value : String → ℕ
point_value symbol = if str_eq symbol "TXF" then 200 else if str_eq symbol "MXF" then 50 else 200

abbrev pub opposite : Direction → Direction
opposite long = short
opposite short = long

-- The direction that a covering fill closes, and the one that an opening fill opens.
abbrev pub covers_direction : Action → Direction
covers_direction sell = long
covers_direction buy = short

abbrev pub news_direction : Action → Direction
news_direction sell = short
news_direction buy = long

abbrev pub more_closed : Decimals → ℕ → ℤ → ℤ → BrokerPosition → BrokerPosition
more_closed dec consumed price fee p =
    let closed = p.closed_qty + consumed in
    record p {
      closed_qty = closed;
      exit_notional = p.exit_notional +ℤ price *ℕ consumed;
      close_fee_total = dec.plus p.close_fee_total fee;
      is_open = if leb p.total_opened_qty closed then false else p.is_open;
    }
