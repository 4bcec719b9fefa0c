-- ===== src/Broker/AgentCommands/Answers.antt =====
-- How an answer, a query and a report end a command (quanquant/broker/agent_commands.py,
-- `apply_command_ack`, and `resolve_update_via_query_qty` to `resolve_one_unresolved_cancel`).
use quanquant.Base.{
  ℕ, String, Bool, true, false, ◌&&◌, ◌||◌, not, Option, none, some, ◌==◌, if◌then◌else◌,
}
use quanquant.Broker.Orders.{Order, is_null}
use quanquant.Broker.Orders.Status.{OrderStatus, is_terminal, filled, status_eq}
use quanquant.Broker.AgentCommands.{
  ok, error, unknown, query_qty, report, AgentCommand, get_command, mark_transport_acked, is_unset,
}
use quanquant.Broker.AgentCommands.Effects.{
  Books, with_commands, UpCmdAck, order_of_command, ends_with, update_done, update_refused,
  update_kept, apply_effects,
}

-- How `apply_command_ack` ended.
pub data Applied : Type 0 where
  not_found user_mismatch repeated already_resolved applied : Applied

-- `apply_command_ack` from the row that it has read; in between another transaction may have
-- committed, so the tables are an argument of their own.
unfoldable pub apply_ack_on : AgentCommand → ℕ → UpCmdAck → ℕ → Books → Applied × Books
apply_ack_on row user_id a now b =
    if not (row.user_id == user_id)
    then (user_mismatch, b)
    else let (won, commands) = mark_transport_acked row.cmd_id user_id now b.commands in
      let marked = with_commands commands b in
      if not won
      then (repeated, marked)
      else if not (is_unset row.resolved_at)
      then (already_resolved, marked)
      else let (lost, after) = apply_effects row a now marked in
        (if lost then already_resolved else applied, after)

unfoldable pub apply_command_ack : String → ℕ → UpCmdAck → ℕ → Books → Applied × Books
apply_command_ack cmd_id user_id a now b = elim (get_command cmd_id b.commands) [
  | none ↦ (not_found, b)
  | some row ↦ apply_ack_on row user_id a now b
]

pub data Resolution : Type 0 where
  confirmed released conservative_confirmed left_pending race_lost : Resolution

abbrev pub is_final : OrderStatus → Bool
is_final s = is_terminal s || status_eq s filled

abbrev pub opt_is : Option ℕ → ℕ → Bool
opt_is none n = false
opt_is (some m) n = m == n

abbrev pub answer : Resolution → Bool × Books → Resolution × Books
answer r (lost, b) = (if lost then race_lost else r, b)

unfoldable pub resolve_update_via_query_qty :
    AgentCommand → Order → Option ℕ → ℕ → Books → Resolution × Books
resolve_update_via_query_qty c o real_qty now b =
    let determinable = not (c.payload.qty == o.qty) in
    if determinable && opt_is real_qty c.payload.qty
    then answer confirmed (ends_with c ok query_qty now (update_done c now (some o)) b)
    else if determinable && opt_is real_qty o.qty
    then answer released (ends_with c error query_qty now (update_refused c) b)
    else if is_final o.status
    then answer conservative_confirmed (ends_with c unknown report now (update_kept c) b)
    else (left_pending, b)

unfoldable pub resolve_unresolved_cancel_via_report :
    AgentCommand → Order → ℕ → Books → Bool × Books
resolve_unresolved_cancel_via_report c o now b =
    if not (is_final o.status)
    then (false, b)
    else let (lost, b') = ends_with c unknown report now (λ d. d) b in (not lost, b')

abbrev pub is_resolution : Resolution → Bool
is_resolution left_pending = false
is_resolution race_lost = false
is_resolution _ = true

abbrev pub resolve_update_of : AgentCommand → Option ℕ → ℕ → Books → Bool × Books
resolve_update_of c real_qty now b = elim (order_of_command c b.ledger.orders) [
  | none ↦ (false, b)
  | some o ↦ let (r, b') = resolve_update_via_query_qty c o real_qty now b in (is_resolution r, b')
]

unfoldable pub resolve_one_unresolved_update : String → Option ℕ → ℕ → Books → Bool × Books
resolve_one_unresolved_update cmd_id real_qty now b = elim (get_command cmd_id b.commands) [
  | none ↦ (false, b)
  | some c ↦ if not (is_unset c.resolved_at) then (false, b) else resolve_update_of c real_qty now b
]

abbrev pub resolve_cancel_of : AgentCommand → ℕ → Books → Bool × Books
resolve_cancel_of c now b = elim (order_of_command c b.ledger.orders) [
  | none ↦ (false, b)
  | some o ↦ resolve_unresolved_cancel_via_report c o now b
]

unfoldable pub resolve_one_unresolved_cancel : String → ℕ → Books → Bool × Books
resolve_one_unresolved_cancel cmd_id now b = elim (get_command cmd_id b.commands) [
  | none ↦ (false, b)
  | some c ↦
      if not (is_unset c.resolved_at) || is_null c.ordno
      then (false, b)
      else resolve_cancel_of c now b
]
