-- ===== src/Broker/Positions/Tests.antt =====
-- Runs of the position ledger on concrete fills, and the theorems at them.
use quanquant.Base.{◌≡◌, refl, true, none, some, [], ◌∷◌, arith, if◌then◌else◌, map}
use quanquant.Base.Int.{pos, ◌+ℤ◌, ◌-ℤ◌, ◌*ℕ◌}
use quanquant.Journal.Pnl.{compute_pnl, price_move}
use quanquant.Broker.Types.{buy, sell, new, auto, long}
use quanquant.Broker.Orders.{apply_order_fill, find_order_by_ordno, find_order_by_broker_id, save}
use quanquant.Broker.Orders.Status.{order_status_transition_allowed}
use quanquant.Broker.Positions.{
  Scope, scope_eq, Fill, fill_scope, BrokerPosition, Trade, Ledger, Outcome, ok,
  cas_update_broker_position, open_qty, point_value,
}
use quanquant.Broker.Positions.Fills.{
  resolve_order, resolve_fee, finalize, reverse_excess, close_position, close_fill, auto_fill,
  dispatch, apply_fill,
}
use quanquant.Broker.Positions.Conservation.{
  net_position, net_notional, bought, net_position-apply_fill, net_notional-apply_fill,
}
use quanquant.Broker.Positions.Invariant.{IsValid}
use quanquant.Broker.Positions.Preserved.{apply_fill-IsValid}
use quanquant.Broker.Samples.{decimals, fill_of, empty_ledger}

abbrev after_fill : Outcome Ledger → Ledger
after_fill (ok l) = l
after_fill _ = empty_ledger

-- Two lots that were opened, a fill of three lots that closes them and reverses by one, and what
-- that leaves.
abbrev held : BrokerPosition
held = record {
  id = 1;
  scope = fill_scope 1 (fill_of buy new 2 20000 40);
  direction = long;
  total_opened_qty = 2;
  entry_notional = pos 40000;
  open_fee_total = pos 40;
  closed_qty = 0;
  exit_notional = pos 0;
  close_fee_total = pos 0;
  is_open = true;
  version = 0;
  trade_id = none;
  opened_at = 100;
  updated_at = 10;
}

abbrev two_lots : Ledger
two_lots = record empty_ledger { positions = held ∷ [] }

abbrev three_sold : Fill
three_sold = fill_of sell auto 3 20100 60

unfoldable flipped : Ledger
flipped = after_fill (apply_fill decimals 1 three_sold 20 two_lots)

apply_fill-three_sold : apply_fill decimals 1 three_sold 20 two_lots ≡ ok flipped
unfolding flipped apply_fill resolve_fee resolve_order find_order_by_ordno find_order_by_broker_id
    dispatch auto_fill close_fill close_position reverse_excess finalize cas_update_broker_position
    compute_pnl price_move open_qty apply_order_fill save order_status_transition_allowed scope_eq
    point_value ◌+ℤ◌ ◌-ℤ◌ ◌*ℕ◌
apply_fill-three_sold = refl

-- The round trip of two lots earns 100 points of 200 dollars each, less 40 + 40 dollars of fees.
trades-flipped : map (λ (t : Trade). t.pnl) flipped.trades ≡ some (pos 39920) ∷ []
unfolding flipped apply_fill resolve_fee resolve_order find_order_by_ordno find_order_by_broker_id
    dispatch auto_fill close_fill close_position reverse_excess finalize cas_update_broker_position
    compute_pnl price_move open_qty apply_order_fill save order_status_transition_allowed scope_eq
    point_value ◌+ℤ◌ ◌-ℤ◌ ◌*ℕ◌
trades-flipped = refl

abbrev here : Scope
here = fill_scope 1 three_sold

net_position-apply_fill_example :
    net_position here flipped.positions
    ≡ net_position here two_lots.positions
      +ℤ (if scope_eq here here then bought sell (pos 3) else pos 0)
net_position-apply_fill_example =
    net_position-apply_fill decimals here 1 three_sold 20 two_lots flipped apply_fill-three_sold

net_notional-apply_fill_example :
    net_notional here flipped.positions
    ≡ net_notional here two_lots.positions
      +ℤ (if scope_eq here here then bought sell (pos 20100 *ℕ 3) else pos 0)
net_notional-apply_fill_example =
    net_notional-apply_fill decimals here 1 three_sold 20 two_lots flipped apply_fill-three_sold

two_lots-IsValid : IsValid two_lots.positions
two_lots-IsValid = record {
  rows = (record { opened = omega arith; closes = omega arith; status = refl }, tt);
  ids = λ k. ground arith;
  single = λ s d. ground arith;
}

apply_fill-IsValid_example : IsValid flipped.positions
apply_fill-IsValid_example =
    apply_fill-IsValid decimals 1 three_sold 20 two_lots two_lots-IsValid (omega arith)
      apply_fill-three_sold
