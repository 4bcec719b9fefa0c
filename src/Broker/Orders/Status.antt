-- ===== src/Broker/Orders/Status.antt =====
-- The status of an order and the guard on its changes (quanquant/broker/repository.py,
-- `_order_status_transition_allowed` with its tables of ranks and terminal statuses).
use quanquant.Base.{ℕ, Bool, true, false, not, ltb, ◌==◌, if◌then◌else◌}

pub data OrderStatus : Type 0 where
  pending sending submitted partfilled filled cancelled failed unknown : OrderStatus

-- A number for each status, by which two are compared.
abbrev pub status_code : OrderStatus → ℕ
status_code pending = 0
status_code sending = 1
status_code submitted = 2
status_code partfilled = 3
status_code filled = 4
status_code cancelled = 5
status_code failed = 6
status_code unknown = 7

abbrev pub status_eq : OrderStatus → OrderStatus → Bool
status_eq a b = status_code a == status_code b

-- `_ORDER_STATUS_RANK.get(s, -1)`, one higher, so that a missing key has rank 0.
abbrev pub status_rank : OrderStatus → ℕ
status_rank pending = 1
status_rank sending = 2
status_rank submitted = 3
status_rank partfilled = 4
status_rank filled = 5
status_rank _ = 0

-- `_ORDER_TERMINAL_STATUSES`
abbrev pub is_terminal : OrderStatus → Bool
is_terminal cancelled = true
is_terminal failed = true
is_terminal _ = false

unfoldable pub order_status_transition_allowed : OrderStatus → OrderStatus → Bool
order_status_transition_allowed current new =
    if status_eq current new
    then false
    else if is_terminal current
    then false
    else if is_terminal new
    then not (status_eq current filled)
    else if status_eq new unknown
    then not (status_eq current filled)
    else if status_eq current unknown
    then true
    else ltb (status_rank current) (status_rank new)
