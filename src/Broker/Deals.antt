-- ===== src/Broker/Deals.antt =====
-- The table of deals, by which a fill counts once (quanquant/broker/repository.py, `_find_deal` and
-- `stage_deal`; the row is `Deal` of quanquant/db/models.py).
use quanquant.Base.{
  ℕ, ◌+◌, String, Bool, true, false, ◌&&◌, Option, none, some, List, [], ◌∷◌, ◌++◌, ◌==◌, str_eq,
  find?, length, update_where,
}
use quanquant.Base.Int.{ℤ}
use quanquant.Broker.Types.{Mode, mode_eq, Action, OcType}
use quanquant.Broker.Orders.{Order}
use quanquant.Broker.Positions.{Fill}

pub record Deal : Type 0 where
  pub id : ℕ
  pub broker : String
  pub account : String
  pub mode : Mode
  pub trading_day : String
  pub fill_id : String
  pub ordno : Option String
  pub broker_order_id : Option String
  pub order_id : Option ℕ
  pub user_id : Option ℕ
  pub raw_inbox_id : Option ℕ
  pub symbol : String
  pub action : Action
  pub price : ℤ
  pub qty : ℕ
  pub fee : Option ℤ
  pub octype : OcType
  pub ts : ℕ
  pub processed : Bool

abbrev pub Deals : Type 0
Deals = List Deal

-- The unique key of a deal against a fill on a day.
abbrev pub is_deal_of : Fill → String → Deal → Bool
is_deal_of f trading_day d =
    (str_eq d.broker f.broker && (mode_eq d.mode f.mode && str_eq d.account f.account))
    && (str_eq d.trading_day trading_day && str_eq d.fill_id f.fill_id)

-- `_find_deal`
unfoldable pub find_deal : Fill → String → Deals → Option Deal
find_deal f trading_day = find? (is_deal_of f trading_day)

abbrev pub deal_row : Fill → Order → ℕ → String → Deals → Deal
deal_row f o raw_inbox_id trading_day t = record {
  id = length t + 1;
  broker = f.broker;
  account = f.account;
  mode = f.mode;
  trading_day = trading_day;
  fill_id = f.fill_id;
  ordno = f.ordno;
  broker_order_id = f.broker_order_id;
  order_id = some o.id;
  user_id = some o.user_id;
  raw_inbox_id = some raw_inbox_id;
  symbol = f.symbol;
  action = f.action;
  price = f.price;
  qty = f.qty;
  fee = f.fee;
  octype = f.octype;
  ts = f.ts;
  processed = false;
}

-- A fill whose key is taken is a replay (none).
unfoldable pub stage_deal : Fill → Order → ℕ → String → Deals → Option (Deal × Deals)
stage_deal f o raw_inbox_id trading_day t = elim (find_deal f trading_day t) [
  | some _ ↦ none
  | none ↦ let d = deal_row f o raw_inbox_id trading_day t in some (d, t ++ d ∷ [])
]

-- `deal.processed = True`
abbrev pub by_deal_id : ℕ → Deal → Bool
by_deal_id id d = d.id == id

abbrev pub processed_deal : Deal → Deal
processed_deal d = record d { processed = true }

abbrev pub mark_deal : ℕ → Deals → Deals
mark_deal id = update_where (by_deal_id id) processed_deal
