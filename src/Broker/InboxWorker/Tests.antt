-- ===== src/Broker/InboxWorker/Tests.antt =====
-- Runs of the worker on an inbox with a fill that is delivered twice, and the theorems at them.
use quanquant.Base.{◌≡◌, refl, true, false, none, some, Option, [], ◌∷◌, ℕ, String, ◌⊎◌, length}
use quanquant.Broker.Types.{real, buy, new}
use quanquant.Broker.Orders.{
  trading_day_for, find_order_by_ordno, find_order_by_broker_id, save, apply_order_fill,
}
use quanquant.Broker.Positions.{Scope, Fill, fill_scope, open_qty}
use quanquant.Broker.Positions.Rows.{total_of}
use quanquant.Broker.Positions.Fills.{
  apply_fill, resolve_fee, resolve_order, dispatch, open_fill, auto_fill,
}
use quanquant.Broker.Positions.Conservation.{net_position}
use quanquant.Broker.Samples.{decimals, fill_of, empty_ledger}
use quanquant.Broker.Inbox.{
  list_unprocessed_raw_inbox, mark_raw_inbox_processed, unquarantine_stale_raw_inbox, RawInbox,
  Rows, Report, deal_report, raw_row, get_row, is_waiting, quarantined, scope_violation,
}
use quanquant.Broker.InboxWorker.{
  Store, Mapped, mapped, bad_value, OrderReport, failed, process_one, process_deal, order_of_fill,
  process_fill,
}
use quanquant.Broker.Deals.{stage_deal, find_deal}
use quanquant.Broker.InboxWorker.Balance.{IsBalanced, dealt, process_one-IsBalanced}
use quanquant.Broker.InboxWorker.Batch.{
  Worker, process_batch_once, retry_association_pending_once, process_batch_once-IsBalanced,
}
use quanquant.Broker.InboxWorker.Kept.{process_one-kept, process_batch_once-dead}

abbrev decode_any : String → Option String
decode_any s = some s

abbrev two_bought : String → Option String → Mapped Fill
two_bought p account = mapped (fill_of buy new 2 20000 40)

abbrev no_reports : String → Option String → Mapped OrderReport
no_reports p account = bad_value

abbrev one_day : ℕ → String
one_day = trading_day_for (λ _. "2026-09-01")

abbrev deal_in : Report
deal_in = record {
  kind = deal_report;
  broker = "shioaji";
  payload = "{}";
  user_id = some 1;
  account = some "A1";
  mode = some real;
}

abbrev first_row : RawInbox
first_row = raw_row deal_in 5 []

abbrev dead_row : RawInbox
dead_row = quarantined scope_violation 7 (record first_row { id = 3 })

abbrev inbox : Rows
inbox = first_row ∷ record first_row { id = 2 } ∷ dead_row ∷ []

abbrev store : Store
store = record {
  books = record { commands = []; ledger = empty_ledger; quotas = []; raw = inbox };
  deals = [];
}

abbrev worker : Worker
worker = record {
  user_id = some 1;
  batch_limit = 50;
  maybe_assoc_pending = true;
  last_retry_released_ids = none;
}

abbrev of_user_1 : Scope
of_user_1 = fill_scope 1 (fill_of buy new 2 20000 40)

store-IsBalanced : IsBalanced store
unfolding net_position dealt total_of
store-IsBalanced scope = refl

process_one-IsBalanced_example :
    IsBalanced (process_one decode_any two_bought no_reports decimals one_day 1 20 store).1
process_one-IsBalanced_example =
    process_one-IsBalanced decode_any two_bought no_reports decimals one_day 1 20 store
      store-IsBalanced

process_batch_once-IsBalanced_example :
    IsBalanced
      (process_batch_once decode_any two_bought no_reports decimals one_day worker 20 store).2
process_batch_once-IsBalanced_example =
    process_batch_once-IsBalanced decode_any two_bought no_reports decimals one_day worker 20 store
      store-IsBalanced

first_found : get_row 1 inbox ≡ some first_row
unfolding get_row
first_found = refl

dead_found : get_row 3 inbox ≡ some dead_row
unfolding get_row
dead_found = refl

process_one-kept_example :
    (((process_one decode_any two_bought no_reports decimals one_day 1 20 store).0 ≡ failed)
      × ((process_one decode_any two_bought no_reports decimals one_day 1 20 store).1 ≡ store))
    ⊎ ((r : RawInbox) × (get_row 1
            (process_one decode_any two_bought no_reports decimals one_day 1 20 store).1.books.raw
          ≡ some r)
        × (is_waiting r ≡ false)
        × (r.payload ≡ "{}"))
process_one-kept_example =
    process_one-kept decode_any two_bought no_reports decimals one_day 1 20 store first_row
      first_found refl

process_batch_once-dead_example :
    get_row 3
      (process_batch_once decode_any two_bought no_reports decimals one_day worker 20
        store).2.books.raw
    ≡ some dead_row
process_batch_once-dead_example =
    process_batch_once-dead decode_any two_bought no_reports decimals one_day worker 20 3 store
      dead_row dead_found refl

-- Both rows land, and the fill is one deal.
one_deal :
    length
      (process_batch_once decode_any two_bought no_reports decimals one_day worker 20 store).2.deals
    ≡ 1
unfolding process_batch_once process_one list_unprocessed_raw_inbox get_row process_deal
    order_of_fill find_order_by_ordno process_fill stage_deal find_deal apply_fill resolve_fee
    resolve_order dispatch open_fill open_qty mark_raw_inbox_processed save find_order_by_broker_id
    retry_association_pending_once unquarantine_stale_raw_inbox auto_fill apply_order_fill
    trading_day_for
one_deal = refl
