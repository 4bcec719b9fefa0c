-- ===== src/Broker/InboxWorker/Ends.antt =====
-- The three ways in which the transaction of a row is committed.
use quanquant.Base.{
  ℕ, ◌≡◌, refl, Option, none, some, [], ◌∷◌, ◌++◌, String, Bool-cases, Option-cases, inl, inr, ◌⊎◌,
}
use quanquant.Broker.Orders.{Order, mark_order_status, save}
use quanquant.Broker.Orders.Status.{OrderStatus}
use quanquant.Broker.Positions.{
  Decimals, Fill, Ledger, Outcome, ok, mismatch, conflict, invalid_trade,
}
use quanquant.Broker.Positions.Fills.{apply_fill}
use quanquant.Broker.Inbox.{RawInbox, ReportKind, order_report, deal_report, other_kind}
use quanquant.Broker.AgentCommands.Effects.{Books, with_orders}
use quanquant.Broker.InboxWorker.Rows.{Keeps, settle_if_agent-Keeps}
use quanquant.Broker.InboxWorker.{
  OrderReport, Mapped, mapped, dead_letter, bad_value, Store, with_books, Processed, done, held,
  raised, order_of_fill, is_foreign_to, row_done, book_fill, process_fill, process_deal,
  settle_if_agent, order_of_report, report_order, process_order_report, process_payload,
  process_row,
}
use quanquant.Broker.Deals.{deal_row, stage_deal, find_deal, mark_deal}

pub outcome_cases :
    {A : Type 0} (r : Outcome A)
    → ((a : A) × (r ≡ ok a)) ⊎ ((r ≡ mismatch) ⊎ ((r ≡ conflict) ⊎ (r ≡ invalid_trade)))
outcome_cases (ok a) = inl (a, refl)
outcome_cases mismatch = inr (inl refl)
outcome_cases conflict = inr (inr (inl refl))
outcome_cases invalid_trade = inr (inr (inr refl))

-- The tables after the deal of a fill went in and the ledger took it.
abbrev pub booked_store : RawInbox → Order → Fill → String → ℕ → Ledger → Store → Store
booked_store row o f day now l s =
    let d = deal_row f o row.id day s.deals in
    row_done row.id now (record s {
      books = record s.books { ledger = l };
      deals = mark_deal d.id (s.deals ++ d ∷ []);
    })

-- The fill that the mapper makes of a report.
abbrev fill_in : ReportKind → Mapped Fill → Option Fill
fill_in deal_report (mapped f) = some f
fill_in deal_report (dead_letter _) = none
fill_in deal_report bad_value = none
fill_in order_report _ = none
fill_in other_kind _ = none

abbrev pub delivered_fill :
    {P : Type 0} → (String → Option P) → (P → Option String → Mapped Fill) → RawInbox → Option Fill
delivered_fill decode map_deal row = elim (decode row.payload) [
  | none ↦ none
  | some p ↦ fill_in row.kind (map_deal p row.account)
]

-- A fill as the worker books it: its order says what kind of fill it is, and of which contract.
abbrev pub as_ordered : Order → Fill → Fill
as_ordered o f = record f { octype = o.octype; symbol = o.symbol }

module _ (delivered : Option Fill) (dec : Decimals) (day_for : ℕ → String) (row : RawInbox)
    (now : ℕ) (s : Store) where
  -- A fill that the table of deals had not, and that the ledger accepted.
  pub record Booked (s' : Store) : Type 0 where
    pub order : Order
    pub sent : Fill
    pub ledger : Ledger
    pub from_row : delivered ≡ some sent
    pub fresh : find_deal (as_ordered order sent) (day_for sent.ts) s.deals ≡ none
    pub accepted :
        apply_fill dec order.user_id (as_ordered order sent) now s.books.ledger ≡ ok ledger
    pub stored : s' ≡ booked_store row order (as_ordered order sent) (day_for sent.ts) now ledger s

  -- A report on an order, which leaves the positions, the deals and the other rows alone.
  pub record Reported (s' : Store) : Type 0 where
    pub books : Books
    pub kept : Keeps s.books books
    pub stored : s' ≡ row_done row.id now (with_books books s)

  -- A commit is a replay, which marks the row only, or one of these two.
  abbrev pub Ends : Processed → Type 0
  Ends (done s') = (s' ≡ row_done row.id now s) ⊎ (Booked s' ⊎ Reported s')
  Ends (held _) = Unit
  Ends raised = Unit

  book_fill-Ends :
      (o : Order) (g : Fill)
      → delivered ≡ some g
      → let f = as_ordered o g in
        find_deal f (day_for f.ts) s.deals ≡ none
        → Ends (
            let f = as_ordered o g in
            let d = deal_row f o row.id (day_for f.ts) s.deals in
            book_fill dec day_for row o f now s (d, s.deals ++ d ∷ []))
  book_fill-Ends o g sent fresh =
      elim (outcome_cases (apply_fill dec o.user_id (as_ordered o g) now s.books.ledger)) [
        | inr (inl e) ↦ rw (e, Ends) tt
        | inr (inr (inl e)) ↦ rw (e, Ends) tt
        | inr (inr (inr e)) ↦ rw (e, Ends) tt
        | inl (l, e) ↦
            rw (e, Ends)
              (inr (
                inl (record {
                  order = o;
                  sent = g;
                  ledger = l;
                  from_row = sent;
                  fresh = fresh;
                  accepted = e;
                  stored = refl;
                })))
      ]

  process_fill-Ends :
      (o : Order) (f : Fill) → delivered ≡ some f → Ends (process_fill dec day_for row o f now s)
  unfolding process_fill stage_deal
  process_fill-Ends o f sent =
      let g : Fill = as_ordered o f in
      elim (Option-cases (find_deal g (day_for g.ts) s.deals)) [
        | inr (d, e) ↦ rw (e, Ends) (inl refl)
        | inl e ↦ rw (e, Ends) (book_fill-Ends o f sent e)
      ]

  process_deal-Ends :
      (m : Mapped Fill)
      → delivered ≡ fill_in deal_report m
      → Ends (process_deal dec day_for row m now s)
  unfolding process_deal
  process_deal-Ends (dead_letter r) sent = tt
  process_deal-Ends bad_value sent = tt
  process_deal-Ends (mapped f) sent = elim (Option-cases (order_of_fill f s.books.ledger.orders)) [
    | inl e ↦ rw (e, Ends) tt
    | inr (o, e) ↦ elim (Bool-cases (is_foreign_to row o)) [
      | inl foreign ↦ rw (e, Ends, foreign) tt
      | inr mine ↦ rw (e, Ends, mine) (process_fill-Ends o f sent)
    ]
  ]

  report_order-Ends : (o : Order) (status : OrderStatus) → Ends (report_order row o status now s)
  report_order-Ends o status =
      let o' = mark_order_status status now o in
      let reported = with_orders (save o' s.books.ledger.orders) s.books in
      elim (Bool-cases (is_foreign_to row o)) [
        | inl foreign ↦ rw foreign tt
        | inr mine ↦ rw mine (
            inr (
              inr (record {
                books = settle_if_agent row o' now reported;
                kept = settle_if_agent-Keeps row o' now reported;
                stored = refl;
              })))
      ]

  process_order_report-Ends : (m : Mapped OrderReport) → Ends (process_order_report row m now s)
  unfolding process_order_report
  process_order_report-Ends (dead_letter r) = tt
  process_order_report-Ends bad_value = tt
  process_order_report-Ends (mapped r) =
      elim (Option-cases (order_of_report r s.books.ledger.orders)) [
        | inl e ↦ rw (e, Ends) tt
        | inr (found, e) ↦ elim (Option-cases found) [
          | inl nobody ↦ rw (e, Ends, nobody) tt
          | inr (o, somebody) ↦ rw (e, Ends, somebody) (report_order-Ends o r.status)
        ]
      ]

  module _ {P : Type 0} (decode : String → Option P) (map_deal : P → Option String → Mapped Fill)
      (map_order_report : P → Option String → Mapped OrderReport) where
    payload-Ends :
        (kind : ReportKind) (p : P)
        → delivered ≡ fill_in kind (map_deal p row.account)
        → Ends (process_payload decode map_deal map_order_report dec day_for kind row p now s)
    payload-Ends deal_report p sent = process_deal-Ends (map_deal p row.account) sent
    payload-Ends order_report p sent = process_order_report-Ends (map_order_report p row.account)
    payload-Ends other_kind p sent = tt

    -- What the transaction of a row can have committed.
    pub process_row-Ends :
        delivered ≡ delivered_fill decode map_deal row
        → Ends (process_row decode map_deal map_order_report dec day_for row now s)
    process_row-Ends sent = elim (Option-cases (decode row.payload)) [
      | inl e ↦ rw (e, Ends) tt
      | inr (p, e) ↦ rw (e, Ends) (payload-Ends row.kind p (rw (e, delivered_fill) at sent))
    ]
