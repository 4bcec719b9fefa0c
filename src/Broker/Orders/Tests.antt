-- ===== src/Broker/Orders/Tests.antt =====
-- Runs of the order table on concrete orders, and the theorems at them.
use quanquant.Base.{◌≤◌, ◌≡◌, refl, none, some, List, [], ◌∷◌, arith, ◌+◌}
use quanquant.Base.Int.{pos, ◌+ℤ◌, ◌*ℕ◌}
use quanquant.Broker.Orders.{
  Order, created, create_order, order_row, apply_order_fill, mark_order_status,
}
use quanquant.Broker.Orders.Status.{submitted, filled, cancelled, order_status_transition_allowed}
use quanquant.Broker.Orders.Progress.{
  OrderEvent, report, fill, after, after_all, stage, filled_by, final_for_good, stage-after_all,
  filled_qty-after_all, fills_complete,
}
use quanquant.Broker.Samples.{whole_quot, new_order, order}

-- Two fills, then a late report of the working order.
abbrev fills_then_late_report : List OrderEvent
fills_then_late_report =
    fill 1 (pos 20000) none 10 ∷ fill 2 (pos 20000) none 11 ∷ report submitted 12 ∷ []

after_all-fills_then_late_report :
    ((after_all whole_quot fills_then_late_report order).status ≡ filled)
    × ((after_all whole_quot fills_then_late_report order).avg_fill_price ≡ some (pos 20000))
unfolding after_all after apply_order_fill mark_order_status order_status_transition_allowed ◌+ℤ◌
    ◌*ℕ◌
after_all-fills_then_late_report = (refl, refl)

abbrev filled_order : Order
filled_order = record order { status = filled; filled_qty = 3 }

final_for_good_example :
    (after_all whole_quot (report cancelled 10 ∷ report submitted 11 ∷ []) filled_order).status
    ≡ filled
final_for_good_example =
    final_for_good whole_quot (report cancelled 10 ∷ report submitted 11 ∷ []) filled_order refl

stage-after_all_example :
    stage order.status ≤ stage (after_all whole_quot fills_then_late_report order).status
stage-after_all_example =
    stage-after_all whole_quot fills_then_late_report order (cc) (cc, (cc, (cc, tt)))

filled_qty-after_all_example :
    (after_all whole_quot fills_then_late_report order).filled_qty
    ≡ 0 + filled_by fills_then_late_report
filled_qty-after_all_example = filled_qty-after_all whole_quot fills_then_late_report order

fills_complete_example :
    (after_all whole_quot
      (fill 1 (pos 20000) none 10 ∷ fill 2 (pos 20100) none 11 ∷ [])
      order).status
    ≡ filled
fills_complete_example =
    fills_complete whole_quot (fill 1 (pos 20000) none 10) (fill 2 (pos 20100) none 11 ∷ []) order
      refl ((omega arith, refl), ((omega arith, refl), tt))

create-new_order :
    create_order new_order 5 [] ≡ created (order_row new_order 5 []) (order_row new_order 5 [] ∷ [])
unfolding create_order
create-new_order = refl
