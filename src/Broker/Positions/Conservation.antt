-- ===== src/Broker/Positions/Conservation.antt =====
-- What a fill conserves: the net position and the cost of the position.
use quanquant.Base.{ℕ, ◌+◌, ◌≡◌, refl, ap, if◌then◌else◌, Option, Bool-cases, inl, inr, sym}
use quanquant.Base.Int.{ℤ, pos, ◌+ℤ◌, ◌-ℤ◌, ◌*ℕ◌, int_laws, *ℕ_add}
use quanquant.Broker.Types.{Action, buy, sell, Direction, long, short}
use quanquant.Broker.Positions.{
  Decimals, Scope, scope_eq, BrokerPosition, Positions, Fill, fill_scope, Ledger, ok,
  covers_direction, news_direction, new_position, more_opened, more_closed,
}
use quanquant.Broker.Positions.Fills.{apply_fill}
use quanquant.Broker.Positions.Rows.{total_of, written}
use quanquant.Broker.Positions.Measures.{IsMeasure}
use quanquant.Broker.Positions.Moves.{apply_fill-moves}

-- An amount with the sign of its direction, or of its action.
abbrev signed : Direction → ℤ → ℤ
signed long a = a
signed short a = pos 0 -ℤ a

abbrev pub bought : Action → ℤ → ℤ
bought buy a = a
bought sell a = pos 0 -ℤ a

abbrev within : Scope → Scope → ℤ → ℤ
within scope s a = if scope_eq s scope then a else pos 0

-- The lots that a position still holds, short lots negative, counted for one scope.
abbrev net_lots : Scope → BrokerPosition → ℤ
net_lots scope p =
    within scope p.scope (signed p.direction (pos p.total_opened_qty -ℤ pos p.closed_qty))

-- What a position has paid, less what it has received, in one scope.
abbrev net_cost : Scope → BrokerPosition → ℤ
net_cost scope p = within scope p.scope (signed p.direction (p.entry_notional -ℤ p.exit_notional))

unfoldable pub net_position : Scope → Positions → ℤ
net_position scope = total_of (net_lots scope)

unfoldable pub net_notional : Scope → Positions → ℤ
net_notional scope = total_of (net_cost scope)

within-add :
    (scope s : Scope) (a b c : ℤ)
    → c ≡ a +ℤ b
    → within scope s c ≡ within scope s a +ℤ within scope s b
within-add scope s a b c e = elim (Bool-cases (scope_eq s scope)) [
  | inl own ↦ rw own e
  | inr other ↦ rw other (omega int_laws)
]

signed-add : (d : Direction) (a b c : ℤ) → c ≡ a +ℤ b → signed d c ≡ signed d a +ℤ signed d b
signed-add long a b c e = e
signed-add short a b c e = rw e (omega int_laws)

bought-add : (d : Action) (a b c : ℤ) → c ≡ a +ℤ b → bought d c ≡ bought d a +ℤ bought d b
bought-add buy a b c e = e
bought-add sell a b c e = rw e (omega int_laws)

opens_bought : (a : Action) (x : ℤ) → signed (news_direction a) x ≡ bought a x
opens_bought buy x = refl
opens_bought sell x = refl

covers_bought : (a : Action) (x : ℤ) → signed (covers_direction a) (pos 0 -ℤ x) ≡ bought a x
covers_bought buy x = omega int_laws
covers_bought sell x = refl

less_nothing : (x : ℤ) → x -ℤ pos 0 ≡ x
less_nothing x = omega int_laws

pos_add : (a b : ℕ) → pos (a + b) ≡ pos a +ℤ pos b
pos_add a b = omega int_laws

-- A measure that has a sign by direction and belongs to one scope, from an amount `amount` of a
-- position that grows by `gain` where lots are opened and falls by it where they are closed.
module _ (dec : Decimals) (scope : Scope) (amount : BrokerPosition → ℤ) (gain : ℕ → ℤ → ℤ)
    (of_new : (s : Scope) (d : Direction) (q : ℕ) (price fee : ℤ) (at now : ℕ) (t : Positions)
      → amount (new_position s d q price fee at now t) ≡ gain q price)
    (of_opened : (q : ℕ) (price fee : ℤ) (p : BrokerPosition)
      → amount (more_opened dec q price fee p) ≡ amount p +ℤ gain q price)
    (of_closed : (q : ℕ) (price fee : ℤ) (p : BrokerPosition)
      → amount (more_closed dec q price fee p) ≡ amount p +ℤ (pos 0 -ℤ gain q price))
    (of_written : (p changed : BrokerPosition) (now : ℕ)
      → amount (written p changed now) ≡ amount changed)
    (of_trade : (p : BrokerPosition) (k : Option ℕ) → amount (record p { trade_id = k }) ≡ amount p)
    (of_sum : (q r : ℕ) (price : ℤ) → gain (q + r) price ≡ gain q price +ℤ gain r price) where
  signed-IsMeasure :
      IsMeasure dec
        (λ p. within scope p.scope (signed p.direction (amount p)))
        (λ s d q price. within scope s (signed d (gain q price)))
        (λ s d q price. within scope s (signed d (pos 0 -ℤ gain q price)))
        (λ s a q price. within scope s (bought a (gain q price)))
  signed-IsMeasure = record {
    on_written = λ p changed now.
        ap (λ x. within scope changed.scope (signed changed.direction x))
          (of_written p changed now);
    on_trade = λ p k. ap (λ x. within scope p.scope (signed p.direction x)) (of_trade p k);
    on_new = λ s d q price fee at now t.
        ap (λ x. within scope s (signed d x)) (of_new s d q price fee at now t);
    on_opened = λ q price fee p.
        within-add scope p.scope (signed p.direction (amount p)) (signed p.direction (gain q price))
          _ (signed-add p.direction (amount p) (gain q price) _ (of_opened q price fee p));
    on_closed = λ q price fee p.
        within-add scope p.scope (signed p.direction (amount p))
          (signed p.direction (pos 0 -ℤ gain q price)) _
          (signed-add p.direction (amount p) (pos 0 -ℤ gain q price) _ (of_closed q price fee p));
    on_open_fill = λ s a q price. ap (within scope s) (opens_bought a (gain q price));
    on_close_fill = λ s a q price. ap (within scope s) (covers_bought a (gain q price));
    on_split = λ s a q r price. sym (
        within-add scope s (bought a (gain q price)) (bought a (gain r price)) _
          (bought-add a (gain q price) (gain r price) _ (of_sum q r price)));
  }

lots-IsMeasure :
    (dec : Decimals) (scope : Scope)
    → IsMeasure dec
        (net_lots scope)
        (λ s d q _. within scope s (signed d (pos q)))
        (λ s d q _. within scope s (signed d (pos 0 -ℤ pos q)))
        (λ s a q _. within scope s (bought a (pos q)))
lots-IsMeasure dec scope =
    signed-IsMeasure dec scope (λ p. pos p.total_opened_qty -ℤ pos p.closed_qty) (λ q _. pos q)
      (λ s d q price fee at now t. less_nothing (pos q))
      (λ q price fee p. opened_lots p.total_opened_qty p.closed_qty q)
      (λ q price fee p. closed_lots p.total_opened_qty p.closed_qty q) (λ p changed now. refl)
      (λ p k. refl) (λ q r price. pos_add q r)
  where
    opened_lots : (a b q : ℕ) → pos (a + q) -ℤ pos b ≡ pos a -ℤ pos b +ℤ pos q
    opened_lots a b q = omega int_laws

    closed_lots : (a b q : ℕ) → pos a -ℤ pos (b + q) ≡ pos a -ℤ pos b +ℤ (pos 0 -ℤ pos q)
    closed_lots a b q = omega int_laws

cost-IsMeasure :
    (dec : Decimals) (scope : Scope)
    → IsMeasure dec
        (net_cost scope)
        (λ s d q price. within scope s (signed d (price *ℕ q)))
        (λ s d q price. within scope s (signed d (pos 0 -ℤ price *ℕ q)))
        (λ s a q price. within scope s (bought a (price *ℕ q)))
cost-IsMeasure dec scope =
    signed-IsMeasure dec scope (λ p. p.entry_notional -ℤ p.exit_notional) (λ q price. price *ℕ q)
      (λ s d q price fee at now t. less_nothing (price *ℕ q))
      (λ q price fee p. opened_cost p.entry_notional p.exit_notional (price *ℕ q))
      (λ q price fee p. closed_cost p.entry_notional p.exit_notional (price *ℕ q))
      (λ p changed now. refl) (λ p k. refl) (λ q r price. *ℕ_add price q r)
  where
    opened_cost : (a b x : ℤ) → a +ℤ x -ℤ b ≡ a -ℤ b +ℤ x
    opened_cost a b x = omega int_laws

    closed_cost : (a b x : ℤ) → a -ℤ (b +ℤ x) ≡ a -ℤ b +ℤ (pos 0 -ℤ x)
    closed_cost a b x = omega int_laws

-- An accepted fill, whatever its kind, moves the net position of its own scope by its lots, bought
-- lots up and sold lots down, and moves no other scope.
pub net_position-apply_fill :
    (dec : Decimals) (scope : Scope) (u : ℕ) (f : Fill) (now : ℕ) (l l' : Ledger)
    → apply_fill dec u f now l ≡ ok l'
    → net_position scope l'.positions
      ≡ net_position scope l.positions
        +ℤ (if scope_eq (fill_scope u f) scope then bought f.action (pos f.qty) else pos 0)
unfolding net_position
net_position-apply_fill dec scope u f now l l' e =
    apply_fill-moves (lots-IsMeasure dec scope) u f now l e

-- It moves what the scope has paid less what it has received by price times lots, and no other scope.
pub net_notional-apply_fill :
    (dec : Decimals) (scope : Scope) (u : ℕ) (f : Fill) (now : ℕ) (l l' : Ledger)
    → apply_fill dec u f now l ≡ ok l'
    → net_notional scope l'.positions
      ≡ net_notional scope l.positions
        +ℤ (if scope_eq (fill_scope u f) scope then bought f.action (f.price *ℕ f.qty) else pos 0)
unfolding net_notional
net_notional-apply_fill dec scope u f now l l' e =
    apply_fill-moves (cost-IsMeasure dec scope) u f now l e
