-- ===== src/Journal/Pnl.antt =====
-- Profit and loss of a trade (quanquant/journal/pnl.py).
use quanquant.Base.{ℕ, ◌≡◌, Option, none, some}
use quanquant.Base.Int.{ℤ, pos, ◌+ℤ◌, ◌-ℤ◌, ◌*ℕ◌, int_laws}
use quanquant.Broker.Types.{Direction, long, short}

abbrev pub or_no_fee : Option ℤ → ℤ
or_no_fee none = pos 0
or_no_fee (some f) = f

-- The move of the price in the direction of the trade.
unfoldable pub price_move : Direction → ℤ → ℤ → ℤ
price_move long entry_price exit_price = exit_price -ℤ entry_price
price_move short entry_price exit_price = entry_price -ℤ exit_price

unfoldable pub compute_pnl : Direction → ℤ → Option ℤ → ℕ → ℕ → Option ℤ → Option ℤ
unfolding price_move
compute_pnl direction entry_price none size point_value fee = none
compute_pnl direction entry_price (some exit_price) size point_value fee =
    some (price_move direction entry_price exit_price *ℕ size *ℕ point_value -ℤ or_no_fee fee)

-- Its `assert` never fires: the mark price is there.
unfoldable pub unrealized_pnl : Direction → ℤ → ℤ → ℕ → ℕ → Option ℤ → Option ℤ
unfolding compute_pnl
unrealized_pnl direction entry_price mark_price size point_value fee =
    compute_pnl direction entry_price (some mark_price) size point_value fee

-- The moves of a long and of a short trade are each other's opposites.
price_move_opposite :
    (entry_price exit_price : ℤ)
    → price_move long entry_price exit_price +ℤ price_move short entry_price exit_price ≡ pos 0
unfolding price_move
price_move_opposite entry_price exit_price = omega int_laws
