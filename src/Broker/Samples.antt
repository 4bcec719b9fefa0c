-- ===== src/Broker/Samples.antt =====
-- Orders, fills and a decimal division for the runs of the test modules.
use quanquant.Base.{ℕ, ◌*◌, ◌/◌, ◌<◌, ◌≡◌, none, some, [], ◌∷◌, arith, suc}
use native.Mathlib.Nat.{mul-div_cancel, zero-div, zero-mul}
use quanquant.Base.Int.{ℤ, pos, negsuc, sub_ℕ, pos_part, neg_part, ◌*ℕ◌, ◌+ℤ◌, ◌-ℤ◌}
use quanquant.Broker.Types.{real, Action, buy, OcType, auto, lmt, rod}
use quanquant.Broker.Orders.{Order, NewOrder}
use quanquant.Broker.Orders.Status.{submitted}
use quanquant.Broker.Positions.{Decimals, Fill, Ledger}

-- A division that is exact where the quotient is whole.
abbrev pub whole_quot : ℤ → ℕ → ℤ
whole_quot a n = sub_ℕ (pos_part a / n) (neg_part a / n)

less_nothing :
    (n : ℕ) → (pos_part (sub_ℕ n 0) ≡ n) × (neg_part (sub_ℕ n 0) ≡ 0) × (sub_ℕ n 0 ≡ pos n)
less_nothing n = (ground arith, ground arith, ground arith)

nothing_less :
    (n : ℕ) → (pos_part (sub_ℕ 0 n) ≡ 0) × (neg_part (sub_ℕ 0 n) ≡ n) × (sub_ℕ 0 (suc n) ≡ negsuc n)
nothing_less n = (ground arith, ground arith, ground arith)

pub whole_quot_exact : (p : ℤ) (n : ℕ) → 0 < n → whole_quot (p *ℕ n) n ≡ p
unfolding ◌*ℕ◌
whole_quot_exact (pos a) n h =
    let (up, down, whole) = less_nothing (a * n) in
    rw (zero-mul, up, down, zero-div, mul-div_cancel a h) (less_nothing a).2
whole_quot_exact (negsuc a) n h =
    let (up, down, whole) = nothing_less (suc a * n) in
    rw (zero-mul, up, down, zero-div, mul-div_cancel (suc a) h) (nothing_less a).2

abbrev pub decimals : Decimals
decimals = record { scale = 1; quot = whole_quot; plus = λ a b. a +ℤ b; minus = λ a b. a -ℤ b }

abbrev pub new_order : NewOrder
new_order = record {
  client_order_id = "c1";
  request_hash = "h1";
  user_id = 1;
  mode = real;
  broker = "shioaji";
  account = "A1";
  symbol = "TXF";
  action = buy;
  qty = 3;
  price = pos 20000;
  price_type = lmt;
  order_type = rod;
  octype = auto;
  trading_day = "2026-09-01";
}

abbrev pub order : Order
order = record {
  id = 1;
  client_order_id = "c1";
  request_hash = "h1";
  user_id = 1;
  mode = real;
  broker = "shioaji";
  account = "A1";
  trading_day = "2026-09-01";
  symbol = "TXF";
  action = buy;
  qty = 3;
  price = pos 20000;
  price_type = lmt;
  order_type = rod;
  octype = auto;
  broker_order_id = some "b1";
  ordno = some "o1";
  status = submitted;
  filled_qty = 0;
  avg_fill_price = none;
  created_at = 5;
  updated_at = 5;
}

-- A real fill of the order's symbol, by action, kind, lots, price and fee.
abbrev pub fill_of : Action → OcType → ℕ → ℕ → ℕ → Fill
fill_of action octype qty price fee = record {
  broker = "shioaji";
  fill_id = "f";
  ordno = some "o1";
  broker_order_id = none;
  symbol = "TXF";
  action = action;
  price = pos price;
  qty = qty;
  fee = some (pos fee);
  octype = octype;
  ts = 100;
  account = "A1";
  mode = real;
}

abbrev pub empty_ledger : Ledger
empty_ledger = record {
  positions = [];
  orders = order ∷ [];
  trades = [];
  next_trade = 1;
  audits = [];
}
