-- ===== src/Broker/AgentCommands/Effects.antt =====
-- What an answer of the agent does to the command, the order, the quota and the inbox
-- (quanquant/broker/agent_commands.py, `apply_place_ack` to `apply_update_ack`, and `_apply_effects`
-- with the three functions below it).
use quanquant.Base.{
  ℕ, String, Bool, true, false, ◌&&◌, not, Option, none, some, [], ◌∷◌, ◌++◌, if◌then◌else◌, find?,
}
use quanquant.Base.Int.{ℤ}
use quanquant.Broker.Quota.{Quotas, confirm_quota, release_quota}
use quanquant.Broker.Orders.{
  Order, Orders, find_order_by_client_order_id, find_order_by_ordno, set_order_ack,
  mark_order_status, save, in_scope, is_null,
}
use quanquant.Broker.Orders.Status.{
  OrderStatus, submitted, cancelled, failed, status_eq, unknown as status_unknown,
}
use quanquant.Broker.Positions.{Ledger, OrderAudit}
use quanquant.Broker.Inbox.{Rows, unquarantine_stale_raw_inbox}
use quanquant.Broker.AgentCommands.{
  place, cancel, update, CommandOutcome, ok, error, Via, ack, AgentCommand, Commands, cas_resolve,
  set_unknown,
}

-- The tables that the answers touch.
pub record Books : Type 0 where
  pub commands : Commands
  pub ledger : Ledger
  pub quotas : Quotas
  pub raw : Rows

abbrev pub with_orders : Orders → Books → Books
with_orders orders b = record b { ledger = record b.ledger { orders = orders } }

abbrev pub with_commands : Commands → Books → Books
with_commands commands b = record b { commands = commands }

pub data ErrorKind : Type 0 where
  trade_not_found exception timeout mode_mismatch expired scope_mismatch failstop : ErrorKind

-- `UpCmdAck`, with what is read of its result.
pub record UpCmdAck : Type 0 where
  pub ok : Bool
  pub ordno : Option String
  pub broker_order_id : Option String
  pub error_kind : Option ErrorKind

-- `_EXPLICIT_REJECT_KINDS`
abbrev pub is_explicit_reject : Option ErrorKind → Bool
is_explicit_reject none = false
is_explicit_reject (some timeout) = false
is_explicit_reject (some _) = true

abbrev pub confirm_if : Option String → Quotas → Quotas
confirm_if none q = q
confirm_if (some id) q = (confirm_quota id q).1

abbrev pub release_if : Option String → Quotas → Quotas
release_if none q = q
release_if (some id) q = (release_quota id q).1

abbrev pub or_empty : Option String → String
or_empty none = ""
or_empty (some s) = s

unfoldable pub apply_place_ack :
    Order → Option String → Option String → Option String → ℕ → Books → Books
apply_place_ack o ordno broker_order_id reservation_id now b =
    let orders =
      (set_order_ack o.id (or_empty broker_order_id) ordno submitted now b.ledger.orders).1 in
    record (with_orders orders b) { quotas = confirm_if reservation_id b.quotas }

-- `failed` gives the reservation back; `unknown` only marks the order.
unfoldable pub apply_place_failure : Order → Option String → OrderStatus → ℕ → Books → Books
apply_place_failure o reservation_id status now b =
    let orders = save (mark_order_status status now o) b.ledger.orders in
    let quotas = if status_eq status failed then release_if reservation_id b.quotas else b.quotas in
    record (with_orders orders b) { quotas = quotas }

unfoldable pub apply_cancel_ack : Order → ℕ → Books → Books
apply_cancel_ack o now b = with_orders (save (mark_order_status cancelled now o) b.ledger.orders) b

unfoldable pub apply_update_ack : Order → ℤ → ℕ → Option String → ℕ → Books → Books
apply_update_ack o new_price new_qty reservation_id now b =
    let changed : Order = record o { price = new_price; qty = new_qty } in
    let orders = save (mark_order_status submitted now changed) b.ledger.orders in
    record (with_orders orders b) { quotas = confirm_if reservation_id b.quotas }

abbrev pub on_order : {A : Type 0} → Option A → (A → Books → Books) → Books → Books
on_order none f b = b
on_order (some o) f b = f o b

-- A query with no number asks for the orders that have none.
abbrev pub order_of_command : AgentCommand → Orders → Option Order
order_of_command c orders = elim c.ordno [
  | none ↦ find? (λ o. in_scope c.broker c.account c.mode o && is_null o.ordno) orders
  | some n ↦ find_order_by_ordno c.broker c.account c.mode n orders
]

abbrev pub order_of_key : AgentCommand → Orders → Option Order
order_of_key c orders = elim c.client_order_id [
  | none ↦ none
  | some id ↦ find_order_by_client_order_id id orders
]

abbrev pub price_or : Option ℤ → ℤ → ℤ
price_or none p = p
price_or (some q) p = q

-- An ending that is written if nothing has ended the command, with what follows it; the Boolean is
-- `race_lost`.
abbrev pub ends_with :
    AgentCommand → CommandOutcome → Via → ℕ → (Books → Books) → Books → Bool × Books
ends_with c outcome via now effect b =
    let won = (cas_resolve c.cmd_id outcome via now b.commands).0 in
    let resolved_b = with_commands (cas_resolve c.cmd_id outcome via now b.commands).1 b in
    if won then (false, effect resolved_b) else (true, resolved_b)

abbrev pub stays_unknown : AgentCommand → (Books → Books) → Books → Bool × Books
stays_unknown c effect b = (false, effect (with_commands (set_unknown c.cmd_id b.commands) b))

-- The late order number frees the reports of the user that waited for it; 200 is the default limit.
abbrev pub frees_waiting : AgentCommand → ℕ → Books → Books
frees_waiting c now b = record b {
  raw = (unquarantine_stale_raw_inbox now 200 (some c.user_id) b.raw).1;
}

-- What follows each ending: of a placement,
abbrev pub place_done : AgentCommand → UpCmdAck → ℕ → Option Order → Books → Books
place_done c a now order d =
    frees_waiting c now
      (on_order order (λ o. apply_place_ack o a.ordno a.broker_order_id c.reservation_id now) d)

abbrev pub place_unclear : ℕ → Option Order → Books → Books
place_unclear now order = on_order order (λ o. apply_place_failure o none status_unknown now)

abbrev pub place_refused : AgentCommand → ℕ → Option Order → Books → Books
place_refused c now order = on_order order (λ o. apply_place_failure o c.reservation_id failed now)

-- of a cancellation,
abbrev pub cancel_done : ℕ → Option Order → Books → Books
cancel_done now order = on_order order (λ o. apply_cancel_ack o now)

abbrev pub audit_cancel : AgentCommand → OrderAudit
audit_cancel c = record {
  actor_user_id = c.user_id;
  mode = c.mode;
  action = "cancel";
  result = "rejected";
  rule = some "agent_cmd_ack";
}

abbrev pub cancel_refused : AgentCommand → Books → Books
cancel_refused c d = record d {
  ledger = record d.ledger { audits = d.ledger.audits ++ audit_cancel c ∷ [] };
}

-- and of an update.
abbrev pub update_done : AgentCommand → ℕ → Option Order → Books → Books
update_done c now order =
    on_order order (λ o.
      apply_update_ack o (price_or c.payload.price o.price) c.payload.qty c.reservation_id now)

abbrev pub update_refused : AgentCommand → Books → Books
update_refused c d = record d { quotas = release_if c.reservation_id d.quotas }

-- The increment of an update that may have happened stays counted.
abbrev pub update_kept : AgentCommand → Books → Books
update_kept c d = record d { quotas = confirm_if c.reservation_id d.quotas }

unfoldable pub apply_place : AgentCommand → UpCmdAck → ℕ → Books → Bool × Books
apply_place c a now b =
    let order = order_of_key c b.ledger.orders in
    if a.ok
    then ends_with c ok ack now (place_done c a now order) b
    else if not (is_explicit_reject a.error_kind)
    then stays_unknown c (place_unclear now order) b
    else ends_with c error ack now (place_refused c now order) b

unfoldable pub apply_cancel : AgentCommand → UpCmdAck → ℕ → Books → Bool × Books
apply_cancel c a now b =
    if a.ok
    then ends_with c ok ack now (cancel_done now (order_of_command c b.ledger.orders)) b
    else if not (is_explicit_reject a.error_kind)
    then stays_unknown c (λ d. d) b
    else ends_with c error ack now (cancel_refused c) b

unfoldable pub apply_update : AgentCommand → UpCmdAck → ℕ → Books → Bool × Books
apply_update c a now b =
    if a.ok
    then ends_with c ok ack now (update_done c now (order_of_command c b.ledger.orders)) b
    else if not (is_explicit_reject a.error_kind)
    then stays_unknown c (λ d. d) b
    else ends_with c error ack now (update_refused c) b

abbrev pub apply_effects : AgentCommand → UpCmdAck → ℕ → Books → Bool × Books
apply_effects c a now b = elim c.kind [
  | place ↦ apply_place c a now b
  | cancel ↦ apply_cancel c a now b
  | update ↦ apply_update c a now b
]
