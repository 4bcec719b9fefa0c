-- ===== src/Broker/Inbox.antt =====
-- The inbox of the broker's reports (quanquant/broker/repository.py, `stage_raw_inbox` to
-- `count_unprocessed_for_login`; the rows are `RawInbox` and `AgentAccountBinding` of
-- quanquant/db/models.py). A report is a row before it is anything else.
pub mod Quarantine
pub mod Bindings
pub mod Backfill
mod Tests
use quanquant.Base.{
  ℕ, zero, suc, ◌+◌, String, Bool, true, false, ◌&&◌, ◌||◌, not, Option, none, some, List, [], ◌∷◌,
  ◌++◌, ltb, ◌==◌, str_eq, if◌then◌else◌, find?, select, length, take, update_where, count_where,
}
use quanquant.Broker.Types.{Mode}
use quanquant.Broker.Orders.{Order, Orders}

pub data ReportKind : Type 0 where
  order_report deal_report other_kind : ReportKind

pub data Reason : Type 0 where
  association_pending scope_violation payload_mismatch user_mismatch : Reason

-- The text of the error is left out.
pub record RawInbox : Type 0 where
  pub id : ℕ
  pub kind : ReportKind
  pub broker : String
  pub payload : String
  pub received_at : ℕ
  pub processed : Bool
  pub quarantine : Bool
  pub processed_at : Option ℕ
  pub user_id : Option ℕ
  pub account : Option String
  pub mode : Option Mode
  pub quarantine_reason : Option Reason

abbrev pub Rows : Type 0
Rows = List RawInbox

abbrev pub by_row_id : ℕ → RawInbox → Bool
by_row_id id r = r.id == id

unfoldable pub get_row : ℕ → Rows → Option RawInbox
get_row id = find? (by_row_id id)

-- A report that comes in, with its scope.
pub record Report : Type 0 where
  pub kind : ReportKind
  pub broker : String
  pub payload : String
  pub user_id : Option ℕ
  pub account : Option String
  pub mode : Option Mode

-- The new row; ids count up, since no row is ever deleted.
abbrev pub raw_row : Report → ℕ → Rows → RawInbox
raw_row p now t = record {
  id = length t + 1;
  kind = p.kind;
  broker = p.broker;
  payload = p.payload;
  received_at = now;
  processed = false;
  quarantine = false;
  processed_at = none;
  user_id = p.user_id;
  account = p.account;
  mode = p.mode;
  quarantine_reason = none;
}

unfoldable pub stage_raw_inbox : Report → ℕ → Rows → RawInbox × Rows
stage_raw_inbox p now t = (raw_row p now t, t ++ raw_row p now t ∷ [])

-- The worker of a user takes that user's rows only; the one of the process takes all.
abbrev pub is_for : Option ℕ → RawInbox → Bool
is_for none r = true
is_for (some u) r = elim r.user_id [ none ↦ false | some v ↦ v == u ]

abbrev pub is_waiting : RawInbox → Bool
is_waiting r = not r.processed && not r.quarantine

unfoldable pub list_unprocessed_raw_inbox : ℕ → Option ℕ → Rows → List RawInbox
list_unprocessed_raw_inbox limit user_id t =
    take limit (select (λ r. is_waiting r && is_for user_id r) t)

abbrev pub done_at : ℕ → RawInbox → RawInbox
done_at now r = record r { processed = true; processed_at = some now }

unfoldable pub mark_raw_inbox_processed : ℕ → ℕ → Rows → Rows
mark_raw_inbox_processed id now = update_where (by_row_id id) (done_at now)

-- `DEAD_LETTER_QUARANTINE_REASONS`
abbrev pub is_dead_letter : Reason → Bool
is_dead_letter association_pending = false
is_dead_letter scope_violation = true
is_dead_letter payload_mismatch = true
is_dead_letter user_mismatch = true

abbrev pub quarantined : Reason → ℕ → RawInbox → RawInbox
quarantined reason now r =
    let held : RawInbox = record r { quarantine = true; quarantine_reason = some reason } in
    if is_dead_letter reason then done_at now held else held

unfoldable pub quarantine_raw_inbox : ℕ → Reason → ℕ → Rows → Rows
quarantine_raw_inbox id reason now = update_where (by_row_id id) (quarantined reason now)

abbrev pub may_retry : Option Reason → Bool
may_retry none = true
may_retry (some association_pending) = true
may_retry (some _) = false

abbrev pub is_stale : ℕ → Option ℕ → RawInbox → Bool
is_stale older_than user_id r =
    r.quarantine
    && (ltb r.received_at older_than && (may_retry r.quarantine_reason && is_for user_id r))

abbrev pub freed : RawInbox → RawInbox
freed r = record r { quarantine = false; quarantine_reason = none }

-- The first `n` rows that satisfy the test are changed.
abbrev pub update_first : ℕ → (RawInbox → Bool) → (RawInbox → RawInbox) → Rows → Rows
update_first zero p f t = t
update_first (suc n) p f [] = []
update_first (suc n) p f (r ∷ t) =
    let here = f r ∷ update_first n p f t in
    let there = r ∷ update_first (suc n) p f t in if p r then here else there

unfoldable pub unquarantine_stale_raw_inbox : ℕ → ℕ → Option ℕ → Rows → ℕ × Rows
unquarantine_stale_raw_inbox older_than limit user_id t = (
  length (take limit (select (is_stale older_than user_id) t)),
  update_first limit (is_stale older_than user_id) freed t,
)

pub record AgentAccountBinding : Type 0 where
  pub broker : String
  pub account : String
  pub user_id : ℕ

abbrev pub AccountBindings : Type 0
AccountBindings = List AgentAccountBinding

abbrev pub binds : String → String → AgentAccountBinding → Bool
binds broker account b = str_eq b.broker broker && str_eq b.account account

unfoldable pub find_account_binding : String → String → AccountBindings → Option AgentAccountBinding
find_account_binding broker account = find? (binds broker account)

unfoldable pub bind_account : String → String → ℕ → AccountBindings → Bool × AccountBindings
bind_account broker account user_id t = elim (find_account_binding broker account t) [
  | some b ↦ (b.user_id == user_id, t)
  | none ↦ (true, t ++ record { broker = broker; account = account; user_id = user_id } ∷ [])
]

abbrev pub is_other_owner : String → String → ℕ → Order → Bool
is_other_owner broker account user_id o =
    str_eq o.broker broker && (str_eq o.account account && not (o.user_id == user_id))

unfoldable pub account_owned_by_other_user_in_orders : String → String → ℕ → Orders → Bool
account_owned_by_other_user_in_orders broker account user_id t =
    elim (find? (is_other_owner broker account user_id) t) [ none ↦ false | some _ ↦ true ]

-- One order for each pair of broker and account: the keys of `owners`.
abbrev pub is_same_account : Order → Order → Bool
is_same_account o r = str_eq r.broker o.broker && str_eq r.account o.account

abbrev pub add_owner : Order → Orders → Orders
add_owner o keys = elim (find? (is_same_account o) keys) [ none ↦ keys ++ o ∷ [] | some _ ↦ keys ]

abbrev pub owners : Orders → Orders → Orders
owners [] keys = keys
owners (o ∷ os) keys = owners os (add_owner o keys)

-- A pair that some order gives to a second user.
abbrev pub has_conflict : Orders → Orders → Bool
has_conflict t [] = false
has_conflict t (o ∷ os) =
    account_owned_by_other_user_in_orders o.broker o.account o.user_id t || has_conflict t os

-- The loop over the pairs; none is the `BackfillConflictError` of a binding to another user.
abbrev pub write_owners : Orders → AccountBindings → Option AccountBindings
write_owners [] t = some t
write_owners (o ∷ os) t =
    let (same, t') = bind_account o.broker o.account o.user_id t in
    let rest = write_owners os t' in if same then rest else none

-- `backfill_account_bindings`: nothing is written if there is a conflict.
unfoldable pub backfill_account_bindings : Orders → AccountBindings → Option AccountBindings
backfill_account_bindings orders t =
    let keys = owners orders [] in if has_conflict orders keys then none else write_owners keys t

abbrev pub is_foreign : String → Option String → Bool
is_foreign account none = true
is_foreign account (some a) = not (str_eq a account)

abbrev pub is_of : ℕ → RawInbox → Bool
is_of u r = is_for (some u) r

unfoldable pub count_unprocessed_for_login : ℕ → String → Rows → ℕ
count_unprocessed_for_login user_id account =
    count_where (λ r. not r.processed && (is_of user_id r && is_foreign account r.account))

-- `_validate_report_scope`
abbrev pub scope_valid : ℕ → String → String → AccountBindings → Bool
scope_valid user_id broker account t = elim (find_account_binding broker account t) [
  | none ↦ true
  | some b ↦ b.user_id == user_id
]

abbrev pub violates : Report → AccountBindings → Bool
violates p t = elim p.user_id [
  | none ↦ false
  | some u ↦ elim p.account [ none ↦ false | some a ↦ not (scope_valid u p.broker a t) ]
]

-- `stage_scoped_raw_inbox`: a report of someone else's account is kept as a dead letter.
unfoldable pub stage_scoped_raw_inbox : Report → ℕ → AccountBindings → Rows → Rows
stage_scoped_raw_inbox p now bindings t =
    let (row, t') = stage_raw_inbox p now t in
    if violates p bindings then quarantine_raw_inbox row.id scope_violation now t' else t'
