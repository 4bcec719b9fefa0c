-- ===== src/Agent/Buffer.antt =====
-- The durable buffer of the agent (quanquant/agent/buffer.py, `DurableBuffer`): the outbox of what
-- the server has not confirmed, the ledger of the commands that were executed, and the mark of a
-- failure beside the database. Times are counts of seconds; a payload is its JSON text.
pub mod Kept
mod Tests
use quanquant.Base.{
  ℕ, ◌+◌, ◌*◌, ◌≡◌, String, Bool, true, false, ◌&&◌, ◌||◌, not, Option, none, some, List, [], ◌∷◌,
  ◌++◌, ltb, ◌==◌, str_eq, if◌then◌else◌, find?, select, update_where, count_where, take,
}
use quanquant.Base.Int.{ℤ, pos}
use quanquant.Broker.Types.{Mode}
use quanquant.Broker.Orders.{column_eq}

-- A row of the table `outbox`.
pub record OutboxRow : Type 0 where
  pub id : ℕ
  pub kind : String
  pub payload : String
  pub account : Option String
  pub mode : Option Mode
  pub cmd_id : Option String
  pub sent_at : Option ℕ

-- A row of the table `command_ledger`, without the time.
pub record Execution : Type 0 where
  pub cmd_id : String
  pub kind : String
  pub result : String

-- The table `meta`, by its keys.
pub record Meta : Type 0 where
  pub schema_version : Option String
  pub account : Option String
  pub health_epoch : Option ℤ

-- The file beside the database: none, one that cannot be read, or what it says.
pub data Sentinel : Type 0 where
  absent unreadable : Sentinel
  written : (epoch : ℤ) (detail : String) → Sentinel

-- `next_id` is the counter of AUTOINCREMENT; a dropped table takes it along.
pub record Buffer : Type 0 where
  pub has_outbox : Bool
  pub outbox : List OutboxRow
  pub next_id : ℕ
  pub executions : List Execution
  pub meta : Meta
  pub sentinel : Sentinel

abbrev pub is_unsent : OutboxRow → Bool
is_unsent r = elim r.sent_at [ none ↦ true | some _ ↦ false ]

abbrev pub has_id : ℕ → OutboxRow → Bool
has_id id r = r.id == id

abbrev pub is_unsent_of : String → OutboxRow → Bool
is_unsent_of cmd_id r = column_eq r.cmd_id cmd_id && is_unsent r

unfoldable pub unsent_count : Buffer → ℕ
unsent_count b = count_where is_unsent b.outbox

abbrev pub rebuilt : Buffer → Buffer
rebuilt b = record b { has_outbox = true; outbox = []; next_id = 1 }

abbrev pub versioned : Buffer → Buffer
versioned b = record b { has_outbox = true; meta = record b.meta { schema_version = some "2" } }

-- `_ensure_schema_v2`; `none` is `RefuseStartError`, which changes nothing.
unfoldable pub ensure_schema_v2 : Buffer → Option Buffer
unfolding unsent_count
ensure_schema_v2 b =
    if not b.has_outbox
    then some (versioned (rebuilt b))
    else if column_eq b.meta.schema_version "2"
    then some (versioned b)
    else if ltb 0 (unsent_count b)
    then none
    else some (versioned (rebuilt b))

-- `sent_at < datetime('now', '-days days')`, where it is set
abbrev pub sent_before : ℕ → ℕ → Option ℕ → Bool
sent_before days now none = false
sent_before days now (some t) = ltb (t + days * 86400) now

unfoldable pub prune_sent : ℕ → ℕ → Buffer → Buffer
prune_sent days now b = record b {
  outbox = select (λ r. not (sent_before days now r.sent_at)) b.outbox;
}

-- `__init__`
unfoldable pub open_buffer : ℕ → Buffer → Option Buffer
open_buffer now b = elim (ensure_schema_v2 b) [
  | none ↦ none
  | some opened ↦ some (prune_sent 7 now opened)
]

-- What is inserted, before it has an id.
pub record NewRow : Type 0 where
  pub kind : String
  pub payload : String
  pub account : Option String
  pub mode : Option Mode
  pub cmd_id : Option String

abbrev pub outbox_row : ℕ → NewRow → OutboxRow
outbox_row id n = record {
  id = id;
  kind = n.kind;
  payload = n.payload;
  account = n.account;
  mode = n.mode;
  cmd_id = n.cmd_id;
  sent_at = none;
}

abbrev pub inserted : NewRow → Buffer → ℕ × Buffer
inserted n b = (
  b.next_id,
  record b { outbox = b.outbox ++ outbox_row b.next_id n ∷ []; next_id = b.next_id + 1 },
)

abbrev pub unsent_ack : Option String → Buffer → Option OutboxRow
unsent_ack none b = none
unsent_ack (some c) b = find? (is_unsent_of c) b.outbox

-- `none` is the error of the unique index `ux_outbox_cmd_unsent`.
unfoldable pub append : NewRow → Buffer → Option (ℕ × Buffer)
append n b = elim (unsent_ack n.cmd_id b) [ none ↦ some (inserted n b) | some _ ↦ none ]

unfoldable pub pending : ℕ → Buffer → List OutboxRow
pending limit b = take limit (select is_unsent b.outbox)

unfoldable pub mark_sent : ℕ → ℕ → Buffer → Buffer
mark_sent event_id now b = record b {
  outbox = update_where (has_id event_id) (λ r. record r { sent_at = some now }) b.outbox;
}

abbrev pub by_command : String → Execution → Bool
by_command cmd_id e = str_eq e.cmd_id cmd_id

abbrev pub result_of : Option Execution → Option String
result_of none = none
result_of (some e) = some e.result

unfoldable pub lookup_command : String → Buffer → Option String
lookup_command cmd_id b = result_of (find? (by_command cmd_id) b.executions)

abbrev pub ack_of : String → String → Option String → Option Mode → NewRow
ack_of cmd_id result account mode = record {
  kind = "cmd_ack";
  payload = result;
  account = account;
  mode = mode;
  cmd_id = some cmd_id;
}

-- `_append_ack_if_absent`
unfoldable pub append_ack_if_absent :
    String → String → Option String → Option Mode → Buffer → ℕ × Buffer
append_ack_if_absent cmd_id result account mode b = elim (find? (is_unsent_of cmd_id) b.outbox) [
  | some r ↦ (r.id, b)
  | none ↦ inserted (ack_of cmd_id result account mode) b
]

abbrev pub with_execution : String → String → String → Buffer → Buffer
with_execution cmd_id kind result b = record b {
  executions = b.executions ++ (record { cmd_id = cmd_id; kind = kind; result = result }) ∷ [];
}

-- `none` is the error of the primary key; the transaction is rolled back.
unfoldable pub record_execution :
    String → String → String → Option String → Option Mode → Buffer → Option (ℕ × Buffer)
record_execution cmd_id kind result account mode b = elim (find? (by_command cmd_id) b.executions) [
  | some _ ↦ none
  | none ↦
      some (append_ack_if_absent cmd_id result account mode (with_execution cmd_id kind result b))
]

unfoldable pub ensure_cmd_ack_pending :
    String → String → Option String → Option Mode → Buffer → ℕ × Buffer
unfolding append_ack_if_absent
ensure_cmd_ack_pending cmd_id result account mode = append_ack_if_absent cmd_id result account mode

-- `none` is the refusal to start with the rows of another account.
unfoldable pub assert_account : String → Buffer → Option Buffer
unfolding unsent_count
assert_account account b =
    let taken_over = record b { meta = record b.meta { account = some account } } in
    elim b.meta.account [
      | none ↦ some taken_over
      | some old ↦
          if str_eq old account
          then some b
          else if ltb 0 (unsent_count b)
          then none
          else some taken_over
    ]

unfoldable pub write_sentinel : ℤ → String → Buffer → Buffer
write_sentinel epoch detail b = record b { sentinel = written epoch detail }

unfoldable pub clear_sentinel : Buffer → Buffer
clear_sentinel b = record b { sentinel = absent }

abbrev pub epoch_or_zero : Option ℤ → ℤ
epoch_or_zero none = pos 0
epoch_or_zero (some n) = n

unfoldable pub get_health_epoch : Buffer → ℤ
get_health_epoch b = epoch_or_zero b.meta.health_epoch

unfoldable pub set_health_epoch : ℤ → Buffer → Buffer
set_health_epoch epoch b = record b { meta = record b.meta { health_epoch = some epoch } }
