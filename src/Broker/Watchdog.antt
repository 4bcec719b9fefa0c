-- ===== src/Broker/Watchdog.antt =====
-- The watchdog (quanquant/broker/watchdog.py): it gives quarantined reports another try, and settles
-- the quota of orders and commands whose outcome is unknown. What the broker and the gateway of the
-- agent answer are arguments. A pass holds the lock of its supervisor from its start to its end; what
-- other transactions commit meanwhile, and a query of the broker that raises, are left out.
pub mod Settled
pub mod Decided
pub mod Verdicts
pub mod Updates
pub mod CancelEnds
pub mod Cancels
mod Tests
use quanquant.Base.{
  ℕ, ◌+◌, ◌-◌, String, Bool, true, false, ◌&&◌, ◌||◌, not, Option, none, some, List, [], ◌∷◌, ◌==◌,
  if◌then◌else◌, select, take,
}
use quanquant.Broker.Quota.{
  Quotas, QuotaReservation, is_reserved, confirm_quota, release_quota, by_id,
}
use quanquant.Broker.Orders.{
  Order, Orders, list_unknown_orders_older_than, mark_order_status, save, is_null,
}
use quanquant.Broker.Orders.Status.{failed}
use quanquant.Broker.Inbox.{Rows, unquarantine_stale_raw_inbox}
use quanquant.Broker.AgentCommands.{
  AgentCommand, Commands, get_command, is_unset, list_unresolved_unknown_updates,
  list_unresolved_cancels,
}
use quanquant.Broker.AgentCommands.Effects.{Books}
use quanquant.Broker.AgentCommands.Answers.{
  resolve_one_unresolved_update, resolve_one_unresolved_cancel,
}

-- The tables that a pass writes, and the count of what it has settled.
pub record WatchdogPass : Type 0 where
  pub orders : Orders
  pub quotas : Quotas
  pub resolved : ℕ

-- `_retry_quarantined_blocking`; 200 is the default limit.
unfoldable pub retry_quarantined : ℕ → ℕ → Option ℕ → Rows → Rows
retry_quarantined older_than_ms now user_id raw =
    (unquarantine_stale_raw_inbox (now - older_than_ms) 200 user_id raw).1

abbrev pub one_if : Bool → ℕ
one_if b = if b then 1 else 0

-- What the quantity at the broker says of one reservation of an update.
unfoldable pub settle_update : ℕ → Order → QuotaReservation → Quotas → Bool × Quotas
settle_update real_qty o r t =
    if real_qty == o.qty + r.qty
    then confirm_quota r.reservation_id t
    else if real_qty == o.qty
    then release_quota r.reservation_id t
    else (false, t)

unfoldable pub settle_reservations : ℕ → Order → Quotas → Quotas → ℕ × Quotas
unfolding settle_update
settle_reservations real_qty o [] t = (0, t)
settle_reservations real_qty o (r ∷ rs) t =
    let (done, t') = settle_update real_qty o r t in
    let (n, t'') = settle_reservations real_qty o rs t' in (one_if done + n, t'')

-- The number of the order is not set, nor is the broker's id.
abbrev pub never_arrived : Order → Bool
never_arrived o = is_null o.ordno && is_null o.broker_order_id

abbrev pub with_quotas : ℕ × Quotas → WatchdogPass → WatchdogPass
with_quotas (n, t) p = record p { quotas = t; resolved = p.resolved + n }

-- `is_update_of id` is the LIKE with the escaped prefix `<id>:update:`; `ask` is what the broker
-- answers for an order, where the adapter can be asked at all.
module _ (is_update_of : String → String → Bool) where
  abbrev pub is_waiting_update : String → QuotaReservation → Bool
  is_waiting_update client_order_id r =
      is_reserved r.state && is_update_of client_order_id r.reservation_id

  unfoldable pub list_reserved_update_reservations : String → Quotas → Quotas
  list_reserved_update_reservations client_order_id = select (is_waiting_update client_order_id)

  abbrev pub settle_told : Option ℕ → Order → Quotas → WatchdogPass → WatchdogPass
  settle_told none o waiting p = p
  settle_told (some real_qty) o waiting p =
      with_quotas (settle_reservations real_qty o waiting p.quotas) p

  module _ (ask : Option (Order → Option ℕ)) where
    -- The body of the loop.
    unfoldable pub reconcile_order : ℕ → Order → WatchdogPass → WatchdogPass
    reconcile_order now o p =
        if never_arrived o
        then record p {
          orders = save (mark_order_status failed now o) p.orders;
          quotas = (release_quota o.client_order_id p.quotas).1;
          resolved = p.resolved + 1;
        }
        else elim ask [
          | none ↦ p
          | some answer ↦
              if is_null o.ordno
              then p
              else settle_told (answer o) o
                  (list_reserved_update_reservations o.client_order_id p.quotas) p
        ]

    unfoldable pub reconcile_orders : ℕ → List Order → WatchdogPass → WatchdogPass
    reconcile_orders now [] p = p
    reconcile_orders now (o ∷ os) p = reconcile_orders now os (reconcile_order now o p)

    -- `_reconcile_unknown_quota_blocking`
    unfoldable pub reconcile_unknown_quota : ℕ → ℕ → WatchdogPass → WatchdogPass
    unfolding reconcile_orders
    reconcile_unknown_quota grace_ms now p =
        reconcile_orders now (list_unknown_orders_older_than (now - grace_ms) 200 p.orders) p

-- What the gateway answers when it is asked for the quantity of an order.
pub data Gateway : Type 0 where
  not_ready unavailable : Gateway
  told : (real_qty : Option ℕ) → Gateway

-- A call in a session of its own: it is committed if it has settled something.
abbrev pub committed : Bool × Books → Books → Bool × Books
committed (applied, b') b = if applied then (true, b') else (false, b)

-- `_load_unresolved_update_ordno_blocking`
abbrev pub can_ask : Option AgentCommand → Bool
can_ask none = false
can_ask (some c) = is_unset c.resolved_at && not (is_null c.ordno)

abbrev pub told_or : Gateway → Bool × Books → (Option ℕ → Bool × Books) → Bool × Books
told_or not_ready unsettled after = unsettled
told_or unavailable unsettled after = unsettled
told_or (told real_qty) unsettled after = after real_qty

-- One update: first from the tables alone, then with what the gateway answers.
unfoldable pub resolve_update_cmd : (String → Gateway) → ℕ → String → Books → Bool × Books
resolve_update_cmd gateway now cmd_id b =
    let (settled, b') = committed (resolve_one_unresolved_update cmd_id none now b) b in
    if settled
    then (true, b')
    else if not (can_ask (get_command cmd_id b.commands))
    then (false, b)
    else told_or (gateway cmd_id) (false, b)
        (λ q. committed (resolve_one_unresolved_update cmd_id q now b) b)

unfoldable pub resolve_cancel_cmd : ℕ → String → Books → Bool × Books
resolve_cancel_cmd now cmd_id b = committed (resolve_one_unresolved_cancel cmd_id now b) b

unfoldable pub resolve_updates : (String → Gateway) → ℕ → Commands → Books → ℕ × Books
unfolding resolve_update_cmd
resolve_updates gateway now [] b = (0, b)
resolve_updates gateway now (c ∷ cs) b =
    let (settled, b') = resolve_update_cmd gateway now c.cmd_id b in
    let (n, b'') = resolve_updates gateway now cs b' in (one_if settled + n, b'')

unfoldable pub resolve_cancels : ℕ → Commands → Books → ℕ × Books
unfolding resolve_cancel_cmd
resolve_cancels now [] b = (0, b)
resolve_cancels now (c ∷ cs) b =
    let (settled, b') = resolve_cancel_cmd now c.cmd_id b in
    let (n, b'') = resolve_cancels now cs b' in (one_if settled + n, b'')

-- `_reconcile_unknown_quota_agent`: the rows are listed before the first is settled.
unfoldable pub reconcile_unknown_quota_agent : (String → Gateway) → ℕ → ℕ → Books → ℕ × Books
unfolding resolve_updates resolve_cancels
reconcile_unknown_quota_agent gateway user_id now b =
    let updates = list_unresolved_unknown_updates user_id b.commands in
    let (n, b') = resolve_cancels now (list_unresolved_cancels user_id b.commands) b in
    let (m, b'') = resolve_updates gateway now updates b' in (n + m, b'')
