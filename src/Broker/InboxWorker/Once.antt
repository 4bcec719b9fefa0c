-- ===== src/Broker/InboxWorker/Once.antt =====
-- How often a fill is in the table of deals.
use quanquant.Base.{ℕ, ◌≤◌, ◌≡◌, Option, none, some, String, count_where, ◌⊎◌}
use quanquant.Broker.Orders.{Order}
use quanquant.Broker.Positions.{Decimals, Fill, Ledger, ok}
use quanquant.Broker.Positions.Fills.{apply_fill}
use quanquant.Broker.Inbox.{get_row}
use quanquant.Broker.InboxWorker.Ends.{Ends, delivered_fill, as_ordered}
use quanquant.Broker.InboxWorker.{Mapped, Store}
use quanquant.Broker.Deals.{Deals, is_deal_of, find_deal}

-- No two deals have the key of a fill and a day.
abbrev pub IsDistinct : Deals → Type 0
IsDistinct t = (f : Fill) (day : String) → count_where (is_deal_of f day) t ≤ 1

-- The positions and the deals are as they were, or the positions are what the delivered fill makes of
-- them, of which there was no deal before and is exactly one after.
abbrev pub CountsOnce : Option Fill → Decimals → (ℕ → String) → ℕ → Store → Store → Type 0
CountsOnce delivered dec day_for now s s' =
    ((s'.books.ledger.positions ≡ s.books.ledger.positions) × (s'.deals ≡ s.deals))
    ⊎ ((f : Fill) × (o : Order) × (l : Ledger) × (delivered ≡ some f)
        × (find_deal f (day_for f.ts) s.deals ≡ none)
        × (apply_fill dec o.user_id (as_ordered o f) now s.books.ledger ≡ ok l)
        × (s'.books.ledger.positions ≡ l.positions)
        × (count_where (is_deal_of f (day_for f.ts)) s'.deals ≡ 1))

-- The fill that a row of the inbox delivers, if it does.
abbrev pub fill_of_row :
    {P : Type 0} → (String → Option P) → (P → Option String → Mapped Fill) → ℕ → Store → Option Fill
fill_of_row decode map_deal row_id s = elim (get_row row_id s.books.raw) [
  | none ↦ none
  | some row ↦ delivered_fill decode map_deal row
]
