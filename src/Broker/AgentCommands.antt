-- ===== src/Broker/AgentCommands.antt =====
-- The ledger of the commands to the agent (quanquant/broker/agent_commands.py; the row is
-- `AgentCommand` of quanquant/db/models.py). A command is answered in two dimensions: whether the
-- agent replied (`transport_acked_at`), and how it ended (`outcome`, `resolved_via`, `resolved_at`).
pub mod Effects
pub mod Answers
pub mod Calls
pub mod Checks
pub mod Final
pub mod Sound
pub mod Replay
mod Tests
use quanquant.Base.{
  ℕ, ◌+◌, String, Bool, true, false, ◌&&◌, ◌||◌, not, Option, none, some, List, [], ◌∷◌, ◌++◌, ltb,
  leb, ◌==◌, str_eq, if◌then◌else◌, find?, select, update_where, count_where,
}
use quanquant.Base.Int.{ℤ}
use quanquant.Broker.Types.{Mode}
use quanquant.Broker.Orders.{column_eq}

pub data CommandKind : Type 0 where
  place cancel update : CommandKind

pub data CommandOutcome : Type 0 where
  ok error unknown : CommandOutcome

pub data Via : Type 0 where
  ack query_qty report local : Via

-- What the server reads of the payload of an update.
pub record CommandPayload : Type 0 where
  pub price : Option ℤ
  pub qty : ℕ

-- The text of the result is left out.
pub record AgentCommand : Type 0 where
  pub cmd_id : String
  pub user_id : ℕ
  pub kind : CommandKind
  pub broker : String
  pub account : String
  pub mode : Mode
  pub client_order_id : Option String
  pub ordno : Option String
  pub reservation_id : Option String
  pub payload : CommandPayload
  pub created_at : ℕ
  pub sent_at : Option ℕ
  pub transport_acked_at : Option ℕ
  pub outcome : Option CommandOutcome
  pub resolved_via : Option Via
  pub resolved_at : Option ℕ
  pub timeout_observed_at : Option ℕ
  pub expires_at : ℕ

abbrev pub Commands : Type 0
Commands = List AgentCommand

abbrev pub is_unset : Option ℕ → Bool
is_unset none = true
is_unset (some _) = false

abbrev pub by_cmd_id : String → AgentCommand → Bool
by_cmd_id cmd_id c = str_eq c.cmd_id cmd_id

unfoldable pub get_command : String → Commands → Option AgentCommand
get_command cmd_id = find? (by_cmd_id cmd_id)

-- `new_command` and `insert_command`: the row as the caller freezes it, never sent before.
pub record NewCommand : Type 0 where
  pub cmd_id : String
  pub kind : CommandKind
  pub user_id : ℕ
  pub broker : String
  pub account : String
  pub mode : Mode
  pub payload : CommandPayload
  pub client_order_id : Option String
  pub ordno : Option String
  pub reservation_id : Option String
  pub expiry_ms : ℕ

abbrev pub new_command : NewCommand → ℕ → AgentCommand
new_command n now = record {
  cmd_id = n.cmd_id;
  user_id = n.user_id;
  kind = n.kind;
  broker = n.broker;
  account = n.account;
  mode = n.mode;
  client_order_id = n.client_order_id;
  ordno = n.ordno;
  reservation_id = n.reservation_id;
  payload = n.payload;
  created_at = now;
  sent_at = some now;
  transport_acked_at = none;
  outcome = none;
  resolved_via = none;
  resolved_at = none;
  timeout_observed_at = none;
  expires_at = now + n.expiry_ms;
}

unfoldable pub insert_command : AgentCommand → Commands → Commands
insert_command c t = t ++ c ∷ []

abbrev pub is_untimed : String → AgentCommand → Bool
is_untimed cmd_id c =
    by_cmd_id cmd_id c && (is_unset c.transport_acked_at && is_unset c.timeout_observed_at)

abbrev pub timed_out : ℕ → AgentCommand → AgentCommand
timed_out now c = record c { timeout_observed_at = some now }

unfoldable pub mark_timeout_observed : String → ℕ → Commands → Bool × Commands
mark_timeout_observed cmd_id now t =
    (count_where (is_untimed cmd_id) t == 1, update_where (is_untimed cmd_id) (timed_out now) t)

abbrev pub is_unresolved : String → AgentCommand → Bool
is_unresolved cmd_id c = by_cmd_id cmd_id c && is_unset c.resolved_at

abbrev pub resolved : CommandOutcome → Via → ℕ → AgentCommand → AgentCommand
resolved outcome via now c = record c {
  outcome = some outcome;
  resolved_via = some via;
  resolved_at = some now;
}

-- `_cas_resolve`
unfoldable pub cas_resolve : String → CommandOutcome → Via → ℕ → Commands → Bool × Commands
cas_resolve cmd_id outcome via now t = (
  count_where (is_unresolved cmd_id) t == 1,
  update_where (is_unresolved cmd_id) (resolved outcome via now) t,
)

unfoldable pub resolve_never_dispatched : String → ℕ → Commands → Bool × Commands
unfolding cas_resolve
resolve_never_dispatched cmd_id now = cas_resolve cmd_id error local now

abbrev pub is_unacked : String → ℕ → AgentCommand → Bool
is_unacked cmd_id user_id c =
    by_cmd_id cmd_id c && (c.user_id == user_id && is_unset c.transport_acked_at)

abbrev pub acked_at : ℕ → AgentCommand → AgentCommand
acked_at now c = record c { transport_acked_at = some now }

-- `_mark_transport_acked`
unfoldable pub mark_transport_acked : String → ℕ → ℕ → Commands → Bool × Commands
mark_transport_acked cmd_id user_id now t = (
  count_where (is_unacked cmd_id user_id) t == 1,
  update_where (is_unacked cmd_id user_id) (acked_at now) t,
)

-- `row.outcome = "unknown"`
abbrev pub outcome_unknown : AgentCommand → AgentCommand
outcome_unknown c = record c { outcome = some unknown }

unfoldable pub set_unknown : String → Commands → Commands
set_unknown cmd_id = update_where (by_cmd_id cmd_id) outcome_unknown

-- `order_by(created_at)`
abbrev pub insert_by_age : AgentCommand → Commands → Commands
insert_by_age c [] = c ∷ []
insert_by_age c (d ∷ t) =
    let rest = insert_by_age c t in if leb c.created_at d.created_at then c ∷ d ∷ t else d ∷ rest

abbrev pub by_age : Commands → Commands
by_age [] = []
by_age (c ∷ t) = insert_by_age c (by_age t)

abbrev pub is_to_replay : ℕ → String → AgentCommand → Bool
is_to_replay user_id account c =
    c.user_id == user_id
    && (str_eq c.account account && (is_unset c.transport_acked_at && is_unset c.resolved_at))

unfoldable pub list_unresolved_for_replay : ℕ → String → Commands → Commands
list_unresolved_for_replay user_id account t = by_age (select (is_to_replay user_id account) t)

unfoldable pub mark_resent : String → ℕ → Commands → Commands
mark_resent cmd_id now = update_where (by_cmd_id cmd_id) (λ c. record c { sent_at = some now })

abbrev pub mark_all_resent : Commands → ℕ → Commands → Commands
mark_all_resent [] now t = t
mark_all_resent (c ∷ cs) now t = mark_all_resent cs now (mark_resent c.cmd_id now t)

-- The rows that go down again, and the table with the time of it; the encoding is left out.
unfoldable pub prepare_replay : ℕ → String → ℕ → Commands → Commands × Commands
prepare_replay user_id account now t =
    let rows = list_unresolved_for_replay user_id account t in (rows, mark_all_resent rows now t)

abbrev pub is_update : CommandKind → Bool
is_update update = true
is_update _ = false

abbrev pub is_cancel : CommandKind → Bool
is_cancel cancel = true
is_cancel _ = false

abbrev pub is_unknown : Option CommandOutcome → Bool
is_unknown (some unknown) = true
is_unknown _ = false

abbrev pub is_unknown_update : ℕ → AgentCommand → Bool
is_unknown_update user_id c =
    c.user_id == user_id && (is_update c.kind && (is_unknown c.outcome && is_unset c.resolved_at))

abbrev pub is_open_cancel : ℕ → AgentCommand → Bool
is_open_cancel user_id c = c.user_id == user_id && (is_cancel c.kind && is_unset c.resolved_at)

unfoldable pub list_unresolved_unknown_updates_for_ordno : ℕ → String → Commands → Commands
list_unresolved_unknown_updates_for_ordno user_id ordno t =
    by_age (select (λ c. is_unknown_update user_id c && column_eq c.ordno ordno) t)

unfoldable pub list_unresolved_cancels_for_ordno : ℕ → String → Commands → Commands
list_unresolved_cancels_for_ordno user_id ordno t =
    by_age (select (λ c. is_open_cancel user_id c && column_eq c.ordno ordno) t)

unfoldable pub list_unresolved_unknown_updates : ℕ → Commands → Commands
list_unresolved_unknown_updates user_id t = by_age (select (is_unknown_update user_id) t)

unfoldable pub list_unresolved_cancels : ℕ → Commands → Commands
list_unresolved_cancels user_id t = by_age (select (is_open_cancel user_id) t)

-- `has_unresolved_update_command` of the repository: the key of the single update in flight.
abbrev pub is_open_update : String → AgentCommand → Bool
is_open_update client_order_id c =
    column_eq c.client_order_id client_order_id && (is_update c.kind && is_unset c.resolved_at)

unfoldable pub has_unresolved_update_command : String → Commands → Bool
has_unresolved_update_command client_order_id t = elim (find? (is_open_update client_order_id) t) [
  | none ↦ false
  | some _ ↦ true
]

-- `has_unresolved_risky_commands_other_account`: placements and updates, not cancellations.
abbrev pub is_risky_elsewhere : ℕ → String → AgentCommand → Bool
is_risky_elsewhere user_id account c =
    c.user_id == user_id
    && (not (str_eq c.account account) && (not (is_cancel c.kind) && is_unset c.resolved_at))

unfoldable pub has_unresolved_risky_commands_other_account : ℕ → String → Commands → Bool
has_unresolved_risky_commands_other_account user_id account t =
    elim (find? (is_risky_elsewhere user_id account) t) [ none ↦ false | some _ ↦ true ]
