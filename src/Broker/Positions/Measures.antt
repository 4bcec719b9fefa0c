-- ===== src/Broker/Positions/Measures.antt =====
-- A quantity that is added up over the positions, and how a fill moves it: the rules that the net
-- position and the cost share.
use quanquant.Base.{ℕ, ◌+◌, ◌≡◌, Bool, true, Option, some, List, [], ◌∷◌, arith, find?, str_eq_iff}
use quanquant.Base.Int.{ℤ, ◌+ℤ◌}
use quanquant.Broker.Types.{Action, Direction}
use quanquant.Broker.Positions.{
  Decimals, Scope, scope_eq, BrokerPosition, Positions, find_open_position, new_position,
  more_opened, more_closed, covers_direction, news_direction, open_in,
}
use quanquant.Broker.Positions.Rows.{written}

pub find-holds {ℓ} :
    {A : Type ℓ} (q : A → Bool) (t : List A) (x : A) → find? q t ≡ some x → q x ≡ true
find-holds q [] x e = absurd (cc)
find-holds q (r ∷ t) x e = ground (arith, find-holds q t x)

pub scope_eq→eq : (a b : Scope) → scope_eq a b ≡ true → a ≡ b
unfolding scope_eq
scope_eq→eq a b h = ground (
  arith,
  str_eq_iff a.broker b.broker,
  str_eq_iff a.account b.account,
  str_eq_iff a.symbol b.symbol,
)

pub open_in-holds :
    (s : Scope) (d : Direction) (p : BrokerPosition)
    → open_in s d p ≡ true
    → (p.scope ≡ s) × (p.direction ≡ d) × (p.is_open ≡ true)
open_in-holds s d p h = (scope_eq→eq p.scope s (ground arith), ground arith, ground arith)

-- What the query of an open position has found.
pub find_open_position-holds :
    (s : Scope) (d : Direction) (t : Positions) {p : BrokerPosition}
    → find_open_position s d t ≡ some p
    → (p.scope ≡ s) × (p.direction ≡ d) × (p.is_open ≡ true)
find_open_position-holds s d t {p} e = open_in-holds s d p (find-holds (open_in s d) t p e)

-- How a quantity of one position moves when lots are opened or closed on it: it does not depend on
-- the bookkeeping columns, and what closing and opening do together only depends on the fill.
pub record IsMeasure (dec : Decimals) (m : BrokerPosition → ℤ)
    (opened closed : Scope → Direction → ℕ → ℤ → ℤ) (moved : Scope → Action → ℕ → ℤ → ℤ)
    : Type 0 where
  pub on_written : (p changed : BrokerPosition) (now : ℕ) → m (written p changed now) ≡ m changed
  pub on_trade : (p : BrokerPosition) (k : Option ℕ) → m (record p { trade_id = k }) ≡ m p
  pub on_new :
      (s : Scope) (d : Direction) (q : ℕ) (price fee : ℤ) (at now : ℕ) (t : Positions)
      → m (new_position s d q price fee at now t) ≡ opened s d q price
  pub on_opened :
      (q : ℕ) (price fee : ℤ) (p : BrokerPosition)
      → m (more_opened dec q price fee p) ≡ m p +ℤ opened p.scope p.direction q price
  pub on_closed :
      (q : ℕ) (price fee : ℤ) (p : BrokerPosition)
      → m (more_closed dec q price fee p) ≡ m p +ℤ closed p.scope p.direction q price
  pub on_open_fill :
      (s : Scope) (a : Action) (q : ℕ) (price : ℤ)
      → opened s (news_direction a) q price ≡ moved s a q price
  pub on_close_fill :
      (s : Scope) (a : Action) (q : ℕ) (price : ℤ)
      → closed s (covers_direction a) q price ≡ moved s a q price
  pub on_split :
      (s : Scope) (a : Action) (q r : ℕ) (price : ℤ)
      → moved s a q price +ℤ moved s a r price ≡ moved s a (q + r) price
