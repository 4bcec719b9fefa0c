-- ===== src/Broker/Orders.antt =====
-- Orders (quanquant/broker/repository.py, `_order_status_transition_allowed` to
-- `list_pending_orphans_older_than`; the row is `Order` of quanquant/db/models.py). An order is
-- a row of a table; a function that changes an object of the session returns the changed row, and
-- `save` is the flush that writes it. Times are counts of a clock; `now` is an argument.
pub mod Status
pub mod Progress
pub mod Table
mod Tests
use quanquant.Base.{
  ℕ, ◌+◌, ◌/◌, String, Bool, true, false, ◌&&◌, ◌||◌, not, Option, none, some, List, [], ◌∷◌, ◌++◌,
  leb, ltb, ◌==◌, str_eq, if◌then◌else◌, find?, select, length, take, update_where, sum_where,
}
use quanquant.Base.Int.{ℤ, pos, ◌+ℤ◌, ◌*ℕ◌}
use quanquant.Broker.Types.{Mode, mode_eq, Action, PriceType, OrderType, OcType}
use Status.{
  OrderStatus, pending, sending, submitted, partfilled, filled, unknown,
  order_status_transition_allowed, status_eq,
}

pub record Order : Type 0 where
  pub id : ℕ
  pub client_order_id : String
  pub request_hash : String
  pub user_id : ℕ
  pub mode : Mode
  pub broker : String
  pub account : String
  pub trading_day : String
  pub symbol : String
  pub action : Action
  pub qty : ℕ
  pub price : ℤ
  pub price_type : PriceType
  pub order_type : OrderType
  pub octype : OcType
  pub broker_order_id : Option String
  pub ordno : Option String
  pub status : OrderStatus
  pub filled_qty : ℕ
  pub avg_fill_price : Option ℤ
  pub created_at : ℕ
  pub updated_at : ℕ

abbrev pub Orders : Type 0
Orders = List Order

-- The arguments of `create_order`.
pub record NewOrder : Type 0 where
  pub client_order_id : String
  pub request_hash : String
  pub user_id : ℕ
  pub mode : Mode
  pub broker : String
  pub account : String
  pub symbol : String
  pub action : Action
  pub qty : ℕ
  pub price : ℤ
  pub price_type : PriceType
  pub order_type : OrderType
  pub octype : OcType
  pub trading_day : String

abbrev pub by_client_order_id : String → Order → Bool
by_client_order_id id o = str_eq o.client_order_id id

pub find_order_by_client_order_id : String → Orders → Option Order
find_order_by_client_order_id id = find? (by_client_order_id id)

-- An optional column against a value: NULL equals nothing.
abbrev pub column_eq : Option String → String → Bool
column_eq none v = false
column_eq (some w) v = str_eq w v

abbrev pub in_scope : String → String → Mode → Order → Bool
in_scope broker account mode o =
    str_eq o.broker broker && (str_eq o.account account && mode_eq o.mode mode)

unfoldable pub find_order_by_ordno : String → String → Mode → String → Orders → Option Order
find_order_by_ordno broker account mode ordno =
    find? (λ o. in_scope broker account mode o && column_eq o.ordno ordno)

unfoldable pub find_order_by_broker_id : String → String → Mode → String → Orders → Option Order
find_order_by_broker_id broker account mode broker_order_id =
    find? (λ o. in_scope broker account mode o && column_eq o.broker_order_id broker_order_id)

-- The new row, with the defaults of the model; ids count up, since no order is ever deleted.
abbrev pub order_row : NewOrder → ℕ → Orders → Order
order_row n now t = record {
  id = length t + 1;
  client_order_id = n.client_order_id;
  request_hash = n.request_hash;
  user_id = n.user_id;
  mode = n.mode;
  broker = n.broker;
  account = n.account;
  trading_day = n.trading_day;
  symbol = n.symbol;
  action = n.action;
  qty = n.qty;
  price = n.price;
  price_type = n.price_type;
  order_type = n.order_type;
  octype = n.octype;
  broker_order_id = none;
  ordno = none;
  status = pending;
  filled_qty = 0;
  avg_fill_price = none;
  created_at = now;
  updated_at = now;
}

-- What `create_order` does: the order and the table, or the `ValueError` of a reused key.
pub data Created : Type 0 where
  created : Order → Orders → Created
  payload_differs : Created

unfoldable pub create_order : NewOrder → ℕ → Orders → Created
unfolding find_order_by_client_order_id
create_order n now t = elim (find_order_by_client_order_id n.client_order_id t) [
  | some existing ↦
      if not (str_eq existing.request_hash n.request_hash)
      then payload_differs
      else created existing t
  | none ↦ created (order_row n now t) (t ++ order_row n now t ∷ [])
]

abbrev pub by_order_id : ℕ → Order → Bool
by_order_id id o = o.id == id

-- `session.get(Order, id)`, and the flush of a changed row.
unfoldable pub get_order : ℕ → Orders → Option Order
get_order id = find? (by_order_id id)

unfoldable pub save : Order → Orders → Orders
save o = update_where (by_order_id o.id) (λ _. o)

unfoldable pub set_order_sending : ℕ → ℕ → Orders → Option Order × Orders
unfolding get_order save
set_order_sending id now t = elim (get_order id t) [
  | none ↦ (none, t)
  | some o ↦
      let o' : Order = record o { status = sending; updated_at = now } in (some o', save o' t)
]

-- The acknowledged row: the status is written as it is given, with no guard.
abbrev pub acked : String → Option String → OrderStatus → ℕ → Order → Order
acked broker_order_id ordno status now o = record o {
  broker_order_id = some broker_order_id;
  ordno = ordno;
  status = status;
  updated_at = now;
}

unfoldable pub set_order_ack :
    ℕ → String → Option String → OrderStatus → ℕ → Orders → Option Order × Orders
unfolding get_order save
set_order_ack id broker_order_id ordno status now t = elim (get_order id t) [
  | none ↦ (none, t)
  | some o ↦ let o' : Order = acked broker_order_id ordno status now o in (some o', save o' t)
]

abbrev pub or_zero : Option ℤ → ℤ
or_zero none = pos 0
or_zero (some p) = p

abbrev pub or_else : Option OrderStatus → OrderStatus → OrderStatus
or_else none s = s
or_else (some s) _ = s

-- `order.status = new`, where the guard allows it.
abbrev pub guarded : OrderStatus → OrderStatus → OrderStatus
guarded current new = if order_status_transition_allowed current new then new else current

-- Division of a decimal by a count, rounded to the context's precision.
module _ (quot : ℤ → ℕ → ℤ) where
  -- `apply_order_fill`, up to the flush
  unfoldable pub apply_order_fill : ℕ → ℤ → Option OrderStatus → ℕ → Order → Order
  unfolding order_status_transition_allowed
  apply_order_fill fill_qty fill_price terminal_status now o =
      let prior_notional = or_zero o.avg_fill_price *ℕ o.filled_qty in
      let new_qty = o.filled_qty + fill_qty in
      let candidate_status =
        or_else terminal_status (if leb o.qty new_qty then filled else partfilled) in
      record o {
        avg_fill_price = some (quot (prior_notional +ℤ fill_price *ℕ fill_qty) new_qty);
        filled_qty = new_qty;
        status = guarded o.status candidate_status;
        updated_at = now;
      }

-- `mark_order_status`, up to the flush: a report that is not allowed changes nothing.
unfoldable pub mark_order_status : OrderStatus → ℕ → Order → Order
unfolding order_status_transition_allowed
mark_order_status status now o =
    if not (order_status_transition_allowed o.status status)
    then o
    else record o { status = status; updated_at = now }

-- The calendar day of a time: the day in the zone eight hours ahead, as the text that `date_text`
-- gives the number of a day.
unfoldable pub trading_day_for : (ℕ → String) → ℕ → String
trading_day_for date_text ts_ms = date_text ((ts_ms + 28_800_000) / 86_400_000)

-- The filter that the daily counts share.
abbrev pub placed_on : ℕ → Mode → String → Order → Bool
placed_on user_id mode trading_day o =
    o.user_id == user_id && (mode_eq o.mode mode && str_eq o.trading_day trading_day)

unfoldable pub count_orders_today : ℕ → Mode → String → Orders → ℕ
count_orders_today user_id mode trading_day t =
    length (select (placed_on user_id mode trading_day) t)

unfoldable pub sum_qty_today : ℕ → Mode → String → Orders → ℕ
sum_qty_today user_id mode trading_day = sum_where (placed_on user_id mode trading_day) (λ o. o.qty)

abbrev pub open_order_status : OrderStatus → Bool
open_order_status s = status_eq s submitted || status_eq s partfilled

unfoldable pub count_open_orders : Option Mode → Orders → ℕ
count_open_orders none t = length (select (λ o. open_order_status o.status) t)
count_open_orders (some m) t =
    length (select (λ o. open_order_status o.status && mode_eq o.mode m) t)

-- Orders whose outcome is unknown and has not moved since `older_than`.
unfoldable pub list_unknown_orders_older_than : ℕ → ℕ → Orders → List Order
list_unknown_orders_older_than older_than limit t =
    take limit (select (λ o. status_eq o.status unknown && ltb o.updated_at older_than) t)

abbrev pub is_null : Option String → Bool
is_null none = true
is_null (some _) = false

unfoldable pub list_pending_orphans_older_than : ℕ → ℕ → Orders → List Order
list_pending_orphans_older_than older_than limit t = take limit (
    select
      (λ o.
        (status_eq o.status pending || status_eq o.status sending)
        && (is_null o.ordno && (is_null o.broker_order_id && ltb o.updated_at older_than)))
      t)
