-- ===== src/Broker/InboxWorker/Balance.antt =====
-- The position ledger against the table of deals.
use quanquant.Base.{
  ℕ, ◌≡◌, refl, ap, sym, ◌∙◌, ◌||◌, Option, none, some, [], ◌∷◌, ◌++◌, String, if◌then◌else◌,
  Bool-cases, Option-cases, inl, inr,
}
use quanquant.Base.Int.{ℤ, pos, ◌+ℤ◌, +ℤ_assoc, +ℤ_comm}
use quanquant.Broker.Positions.{Decimals, Scope, scope_eq, Fill}
use quanquant.Broker.Positions.Conservation.{net_position, bought, net_position-apply_fill}
use quanquant.Broker.Inbox.{RawInbox, get_row}
use quanquant.Broker.Inbox.Quarantine.{get_row-id}
use quanquant.Broker.InboxWorker.Ends.{Ends, process_row-Ends, delivered_fill, as_ordered}
use quanquant.Broker.InboxWorker.{
  OrderReport, Mapped, Store, Processed, done, held, raised, conclude, process_row, process_one,
}
use quanquant.Broker.Deals.{Deal, Deals, deal_row, mark_deal, by_deal_id, processed_deal}

-- What a deal means for the lots of a scope: bought lots up, sold lots down.
abbrev pub deal_scope : ℕ → Deal → Scope
deal_scope u d = record {
  user_id = u;
  broker = d.broker;
  account = d.account;
  mode = d.mode;
  symbol = d.symbol;
}

abbrev pub deal_lots : Scope → Deal → ℤ
deal_lots scope d = elim d.user_id [
  | none ↦ pos 0
  | some u ↦ if scope_eq (deal_scope u d) scope then bought d.action (pos d.qty) else pos 0
]

-- The lots of a scope by the table of deals.
unfoldable pub dealt : Scope → Deals → ℤ
dealt scope [] = pos 0
dealt scope (d ∷ t) = deal_lots scope d +ℤ dealt scope t

-- Every scope holds the lots that its deals say.
abbrev pub IsBalanced : Store → Type 0
IsBalanced s = (scope : Scope) → net_position scope s.books.ledger.positions ≡ dealt scope s.deals

dealt-append :
    (scope : Scope) (t : Deals) (d : Deal)
    → dealt scope (t ++ d ∷ []) ≡ dealt scope t +ℤ deal_lots scope d
unfolding dealt
dealt-append scope [] d = +ℤ_comm (deal_lots scope d) (pos 0)
dealt-append scope (e ∷ t) d =
    ap (λ x. deal_lots scope e +ℤ x) (dealt-append scope t d)
    ∙ sym (+ℤ_assoc (deal_lots scope e) (dealt scope t) (deal_lots scope d))

marked-lots :
    (scope : Scope) (id : ℕ) (d : Deal)
    → deal_lots scope (if by_deal_id id d then processed_deal d else d) ≡ deal_lots scope d
marked-lots scope id d = elim (Bool-cases (by_deal_id id d)) [
  | inl hit ↦ rw hit refl
  | inr miss ↦ rw miss refl
]

dealt-mark_deal :
    (scope : Scope) (id : ℕ) (t : Deals) → dealt scope (mark_deal id t) ≡ dealt scope t
unfolding dealt
dealt-mark_deal scope id [] = refl
dealt-mark_deal scope id (d ∷ t) =
    rw (marked-lots scope id d) (ap (λ x. deal_lots scope d +ℤ x) (dealt-mark_deal scope id t))

module _ {P : Type 0} (decode : String → Option P) (map_deal : P → Option String → Mapped Fill)
    (map_order_report : P → Option String → Mapped OrderReport) (dec : Decimals)
    (day_for : ℕ → String) where
  row-IsBalanced :
      (delivered : Option Fill) (row : RawInbox) (now : ℕ) (s : Store) (r : Processed)
      → IsBalanced s
      → Ends delivered dec day_for row now s r
      → IsBalanced (conclude row.id now s r).1
  row-IsBalanced delivered row now s (held reason) h e = h
  row-IsBalanced delivered row now s raised h e = h
  row-IsBalanced delivered row now s (done s') h (inl same) = rw same h
  row-IsBalanced delivered row now s (done s') h (inr (inr reported)) =
      rw reported.stored (λ scope. rw reported.kept.0 (h scope))
  row-IsBalanced delivered row now s (done s') h (inr (inl booked)) =
      let f = as_ordered booked.order booked.sent in
      let d = deal_row f booked.order row.id (day_for f.ts) s.deals in
      rw booked.stored (λ scope.
        net_position-apply_fill dec scope booked.order.user_id f now s.books.ledger booked.ledger
          booked.accepted
        ∙ ap (λ x. x +ℤ deal_lots scope d) (h scope)
        ∙ sym (dealt-append scope s.deals d)
        ∙ sym (dealt-mark_deal scope d.id (s.deals ++ d ∷ [])))

  -- Processing a row of the inbox, whatever it holds, whatever the mappers make of it and however it
  -- ends, keeps the lots of every scope equal to the sum of its deals.
  pub process_one-IsBalanced :
      (row_id now : ℕ) (s : Store)
      → IsBalanced s
      → IsBalanced (process_one decode map_deal map_order_report dec day_for row_id now s).1
  unfolding process_one
  process_one-IsBalanced row_id now s h = elim (Option-cases (get_row row_id s.books.raw)) [
    | inl e ↦ rw (e, process_one) h
    | inr (row, e) ↦ elim (Bool-cases (row.processed || row.quarantine)) [
      | inl over ↦ rw (e, process_one, over) h
      | inr waiting ↦
          let same = get_row-id row_id s.books.raw row e in
          rw (e, process_one, waiting, ← same)
            (row-IsBalanced (delivered_fill decode map_deal row) row now s
              (process_row decode map_deal map_order_report dec day_for row now s) h
              (process_row-Ends (delivered_fill decode map_deal row) dec day_for row now s decode
                map_deal map_order_report refl))
    ]
  ]
