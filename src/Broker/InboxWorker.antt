-- ===== src/Broker/InboxWorker.antt =====
-- The worker of the inbox (quanquant/broker/inbox_worker.py, `RawInboxWorker`). A row is processed
-- in one transaction; the events for the pages and the alerts are left out.
pub mod Rows
pub mod Ends
pub mod Balance
pub mod Batch
pub mod Once
pub mod Kept
mod Tests
use quanquant.Base.{
  ℕ, ◌+◌, String, Bool, true, false, ◌&&◌, ◌||◌, not, Option, none, some, List, [], ◌∷◌, ◌++◌, ◌==◌,
  str_eq, if◌then◌else◌, find?, length, update_where, map,
}
use quanquant.Base.Int.{ℤ}
use quanquant.Broker.Types.{Mode, mode_eq, Action, OcType}
use quanquant.Broker.Orders.{
  Order, Orders, find_order_by_ordno, find_order_by_broker_id, mark_order_status, save,
}
use quanquant.Broker.Orders.Status.{OrderStatus}
use quanquant.Broker.Positions.{
  Decimals, Fill, Ledger, Outcome, ok, mismatch, conflict, invalid_trade,
}
use quanquant.Broker.Positions.Fills.{apply_fill}
use quanquant.Broker.Inbox.{
  ReportKind, order_report, deal_report, other_kind, Reason, association_pending, user_mismatch,
  RawInbox, get_row, mark_raw_inbox_processed, quarantine_raw_inbox, list_unprocessed_raw_inbox,
  unquarantine_stale_raw_inbox,
}
use quanquant.Broker.AgentCommands.{
  AgentCommand, Commands, list_unresolved_unknown_updates_for_ordno,
  list_unresolved_cancels_for_ordno,
}
use quanquant.Broker.AgentCommands.Effects.{Books, with_orders}
use quanquant.Broker.AgentCommands.Answers.{
  is_final, resolve_one_unresolved_update, resolve_one_unresolved_cancel,
}
use quanquant.Broker.Deals.{Deal, Deals, find_deal, stage_deal, mark_deal}

-- A report on an order, as the mapper gives it.
pub record OrderReport : Type 0 where
  pub broker : String
  pub account : Option String
  pub mode : Mode
  pub ordno : Option String
  pub broker_order_id : Option String
  pub status : OrderStatus

-- What a mapper answers: a value, a `RawInboxDeadLetterError`, or a `ValueError`.
pub data Mapped {ℓ} (A : Type ℓ) : Type ℓ where
  mapped : A → Mapped A
  dead_letter : Reason → Mapped A
  bad_value : Mapped A

-- All tables.
pub record Store : Type 0 where
  pub books : Books
  pub deals : Deals

-- How the transaction of a row ends: committed, quarantined for a reason, or rolled back by another
-- exception, which leaves the row for the next round.
pub data Processed : Type 0 where
  done : Store → Processed
  held : Reason → Processed
  raised : Processed

abbrev pub lookup_by : (String → Option Order) → Option String → Option Order
lookup_by find none = none
lookup_by find (some s) = if str_eq s "" then none else find s

abbrev pub or_found : Option Order → Option Order → Option Order
or_found none b = b
or_found (some a) b = some a

-- The order of a fill: by its number, or else by the broker's id.
unfoldable pub order_of_fill : Fill → Orders → Option Order
order_of_fill f orders =
    or_found (lookup_by (λ s. find_order_by_ordno f.broker f.account f.mode s orders) f.ordno) (
      lookup_by (λ s. find_order_by_broker_id f.broker f.account f.mode s orders) f.broker_order_id)

-- `row.user_id is not None and order.user_id != row.user_id`
abbrev pub is_foreign_to : RawInbox → Order → Bool
is_foreign_to row o = elim row.user_id [ none ↦ false | some u ↦ not (o.user_id == u) ]

abbrev pub with_books : Books → Store → Store
with_books b s = record s { books = b }

abbrev pub row_done : ℕ → ℕ → Store → Store
row_done row_id now s =
    with_books (record s.books { raw = mark_raw_inbox_processed row_id now s.books.raw }) s

module _ (dec : Decimals) (trading_day_for : ℕ → String) where
  -- The ledger takes a new deal, or the exception decides about the row; the validation error of a
  -- trade is a `ValueError`.
  abbrev pub book_fill : RawInbox → Order → Fill → ℕ → Store → Deal × Deals → Processed
  book_fill row o f now s (d, deals) = elim (apply_fill dec o.user_id f now s.books.ledger) [
    | ok l ↦ done (
        row_done row.id now
          (record s { books = record s.books { ledger = l }; deals = mark_deal d.id deals }))
    | mismatch ↦ held association_pending
    | invalid_trade ↦ held association_pending
    | conflict ↦ raised
  ]

  -- A fill of a known order; the order gives the symbol and the kind.
  unfoldable pub process_fill : RawInbox → Order → Fill → ℕ → Store → Processed
  process_fill row o mapped_fill now s =
      let f : Fill = record mapped_fill { octype = o.octype; symbol = o.symbol } in
      elim (stage_deal f o row.id (trading_day_for f.ts) s.deals) [
        | none ↦ done (row_done row.id now s)
        | some new_deal ↦ book_fill row o f now s new_deal
      ]

  -- `_process_deal`, after the mapper
  unfoldable pub process_deal : RawInbox → Mapped Fill → ℕ → Store → Processed
  process_deal row (dead_letter reason) now s = held reason
  process_deal row bad_value now s = held association_pending
  process_deal row (mapped f) now s = elim (order_of_fill f s.books.ledger.orders) [
    | none ↦ held association_pending
    | some o ↦ if is_foreign_to row o then held user_mismatch else process_fill row o f now s
  ]

-- The commands that the end of an order settles, one after the other.
abbrev pub settle_updates : Commands → ℕ → Books → Books
settle_updates [] now b = b
settle_updates (c ∷ cs) now b =
    settle_updates cs now (resolve_one_unresolved_update c.cmd_id none now b).1

abbrev pub settle_cancels : Commands → ℕ → Books → Books
settle_cancels [] now b = b
settle_cancels (c ∷ cs) now b =
    settle_cancels cs now (resolve_one_unresolved_cancel c.cmd_id now b).1

-- `_resolve_agent_commands_after_terminal`
unfoldable pub settle_after_terminal : Order → ℕ → Books → Books
settle_after_terminal o now b = elim o.ordno [
  | none ↦ b
  | some n ↦
      if not (is_final o.status)
      then b
      else let updates = list_unresolved_unknown_updates_for_ordno o.user_id n b.commands in
        let b' = settle_updates updates now b in
        settle_cancels (list_unresolved_cancels_for_ordno o.user_id n b'.commands) now b'
]

abbrev pub in_account : (String → Option Order) → Option String → Option Order
in_account find none = none
in_account find (some a) = find a

-- `_resolve_order_report_order`: both keys, where they are given, must name one order (none: they
-- name two).
unfoldable pub order_of_report : OrderReport → Orders → Option (Option Order)
order_of_report r orders =
    let by_ordno =
      in_account (λ a. lookup_by (λ s. find_order_by_ordno r.broker a r.mode s orders) r.ordno)
        r.account in
    let by_broker_id =
      in_account
        (λ a. lookup_by (λ s. find_order_by_broker_id r.broker a r.mode s orders) r.broker_order_id)
        r.account in
    elim by_ordno [
      | none ↦ some by_broker_id
      | some a ↦ elim by_broker_id [
        | none ↦ some (some a)
        | some b ↦ if not (a.id == b.id) then none else some (some a)
      ]
    ]

abbrev pub settle_if_agent : RawInbox → Order → ℕ → Books → Books
settle_if_agent row o now b = elim row.user_id [ none ↦ b | some _ ↦ settle_after_terminal o now b ]

abbrev pub report_order : RawInbox → Order → OrderStatus → ℕ → Store → Processed
report_order row o status now s =
    if is_foreign_to row o
    then held user_mismatch
    else let o' = mark_order_status status now o in
      let reported = with_orders (save o' s.books.ledger.orders) s.books in
      done (row_done row.id now (with_books (settle_if_agent row o' now reported) s))

-- `_process_order_report`, after the mapper
unfoldable pub process_order_report : RawInbox → Mapped OrderReport → ℕ → Store → Processed
process_order_report row (dead_letter reason) now s = held reason
process_order_report row bad_value now s = held association_pending
process_order_report row (mapped r) now s = elim (order_of_report r s.books.ledger.orders) [
  | none ↦ held association_pending
  | some found ↦ elim found [
    | none ↦ held association_pending
    | some o ↦ report_order row o r.status now s
  ]
]

-- How a row was handled: it landed, it did not (with whether it may be retried), or it raised.
pub data Handled : Type 0 where
  landed : Handled
  no_landing : (retryable : Bool) → Handled
  failed : Handled

abbrev pub is_retryable : Reason → Bool
is_retryable association_pending = true
is_retryable _ = false

abbrev pub conclude : ℕ → ℕ → Store → Processed → Handled × Store
conclude row_id now s (done s') = (landed, s')
conclude row_id now s (held reason) = (
  no_landing (is_retryable reason),
  with_books (record s.books { raw = quarantine_raw_inbox row_id reason now s.books.raw }) s,
)
conclude row_id now s raised = (failed, s)

-- `decode` reads the text of a payload, and the mappers read what is decoded, with the account of
-- the row.
module _ {P : Type 0} (decode : String → Option P) (map_deal : P → Option String → Mapped Fill)
    (map_order_report : P → Option String → Mapped OrderReport) (dec : Decimals)
    (trading_day_for : ℕ → String) where
  abbrev pub process_payload : ReportKind → RawInbox → P → ℕ → Store → Processed
  process_payload deal_report row p now s =
      process_deal dec trading_day_for row (map_deal p row.account) now s
  process_payload order_report row p now s =
      process_order_report row (map_order_report p row.account) now s
  process_payload other_kind row p now s = held association_pending

  abbrev pub process_row : RawInbox → ℕ → Store → Processed
  process_row row now s = elim (decode row.payload) [
    | none ↦ held association_pending
    | some p ↦ process_payload row.kind row p now s
  ]

  -- `_process_one`
  unfoldable pub process_one : ℕ → ℕ → Store → Handled × Store
  process_one row_id now s = elim (get_row row_id s.books.raw) [
    | none ↦ (no_landing false, s)
    | some row ↦
        if row.processed || row.quarantine
        then (no_landing false, s)
        else conclude row_id now s (process_row row now s)
  ]
