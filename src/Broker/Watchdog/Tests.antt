-- ===== src/Broker/Watchdog/Tests.antt =====
-- Runs and witnesses of the watchdog.
use quanquant.Base.{
  ℕ, ◌≡◌, refl, String, Bool, ◌&&◌, ◌||◌, Option, none, some, [], ◌∷◌, find?, str_eq,
}
use quanquant.Broker.Types.{real}
use quanquant.Broker.Quota.{
  QuotaReservation, QuotaState, reserved, confirmed, released, by_id, confirm_quota, release_quota,
  settle,
}
use quanquant.Broker.Orders.{Order, list_unknown_orders_older_than, find_order_by_ordno}
use quanquant.Broker.Orders.Status.{unknown, cancelled}
use quanquant.Broker.Watchdog.{
  WatchdogPass, not_ready, reconcile_unknown_quota_agent, reconcile_unknown_quota, reconcile_orders,
  reconcile_order, settle_update, settle_reservations, list_reserved_update_reservations,
}
use quanquant.Broker.Watchdog.Verdicts.{reconcile_unknown_quota-verdicts}
use quanquant.Broker.Watchdog.Cancels.{reconcile_unknown_quota_agent-cancel}
use quanquant.Broker.AgentCommands.{AgentCommand, cancel, new_command, get_command}
use quanquant.Broker.AgentCommands.Effects.{Books}
use quanquant.Broker.AgentCommands.Calls.{open_rows}
use quanquant.Broker.Samples.{order, empty_ledger}

abbrev unknown_order : Order
unknown_order = record order { status = unknown }

abbrev never_sent : Order
never_sent = record order {
  id = 2;
  client_order_id = "c2";
  status = unknown;
  ordno = none;
  broker_order_id = none;
}

abbrev reservation : String → ℕ → QuotaState → QuotaReservation
reservation id qty state = record {
  reservation_id = id;
  user_id = 1;
  mode = real;
  trading_day = "2026-09-01";
  qty = qty;
  state = state;
}

-- Two updates of the first order wait; the broker has it with five lots.
abbrev stuck : WatchdogPass
stuck = record {
  orders = unknown_order ∷ never_sent ∷ [];
  quotas =
      reservation "c1" 3 confirmed
      ∷ reservation "c1:update:h2" 2 reserved
      ∷ reservation "c1:update:h3" 4 reserved
      ∷ reservation "c2" 6 reserved
      ∷ [];
  resolved = 0;
}

abbrev updates_of : String → String → Bool
updates_of id r = str_eq id "c1" && (str_eq r "c1:update:h2" || str_eq r "c1:update:h3")

abbrev five : Option (Order → Option ℕ)
five = some (λ o. some 5)

reconcile-stuck :
    (reconcile_unknown_quota updates_of five 300000 400000 stuck).quotas
    ≡ reservation "c1" 3 confirmed
      ∷ reservation "c1:update:h2" 2 confirmed
      ∷ reservation "c1:update:h3" 4 reserved
      ∷ reservation "c2" 6 released
      ∷ []
unfolding reconcile_unknown_quota reconcile_orders reconcile_order settle_reservations settle_update
    list_reserved_update_reservations confirm_quota release_quota settle
    list_unknown_orders_older_than
reconcile-stuck = refl

reconcile_unknown_quota-verdicts_example :
    find?
      (by_id "c1:update:h2")
      (reconcile_unknown_quota updates_of five 300000 400000 stuck).quotas
    ≡ some (reservation "c1:update:h2" 2 confirmed)
unfolding list_unknown_orders_older_than
reconcile_unknown_quota-verdicts_example =
    reconcile_unknown_quota-verdicts updates_of five 300000 400000 stuck "c1:update:h2"
      (reservation "c1:update:h2" 2 reserved) (refl, (refl, (refl, (refl, tt)))) refl

abbrev take_back : AgentCommand
take_back =
    new_command
      (record {
        cmd_id = "k1";
        kind = cancel;
        user_id = 1;
        broker = "shioaji";
        account = "A1";
        mode = real;
        payload = record { price = none; qty = 0 };
        client_order_id = some "c1";
        ordno = some "o1";
        reservation_id = none;
        expiry_ms = 60;
      })
      10

abbrev cancelled_order : Order
cancelled_order = record order { status = cancelled }

abbrev books : Books
books = record {
  commands = take_back ∷ [];
  ledger = record empty_ledger { orders = cancelled_order ∷ [] };
  quotas = [];
  raw = [];
}

reconcile_unknown_quota_agent-cancel_example :
    open_rows "k1" (reconcile_unknown_quota_agent (λ id. not_ready) 1 90 books).1.commands ≡ 0
unfolding get_command find_order_by_ordno
reconcile_unknown_quota_agent-cancel_example =
    reconcile_unknown_quota_agent-cancel (λ id. not_ready) 1 90 books "k1" take_back cancelled_order
      refl refl refl refl refl refl
