-- ===== src/Agent/Runner/Honest.antt =====
-- What the outbox answers for a command, against the ledger of what was executed.
use quanquant.Base.{
  ℕ, ◌≡◌, String, Bool, Option, none, some, List, [], ◌∷◌, ◌++◌, arith, str_eq_refl, find?, select,
  update_where, All, All-map, Bool-cases, Option-cases, inl, inr, ◌⊎◌,
}
use quanquant.Broker.Types.{Mode}
use quanquant.Agent.Buffer.{
  Buffer, OutboxRow, Execution, outbox_row, by_command, result_of, lookup_command, open_buffer,
  ensure_schema_v2, prune_sent, assert_account, append, mark_sent, write_sentinel, clear_sentinel,
  set_health_epoch, ensure_cmd_ack_pending, append_ack_if_absent, record_execution, with_execution,
  ack_of, is_unsent_of, has_id,
}
use quanquant.Agent.Runner.{
  AgentRunner, DownCommand, CommandResult, CallFate, taken, not_taken, cut_off, perform,
  execute_mutating_command, latch, load_persisted_health, Storage, startup_recovery_probe,
  result_or_timeout,
}
use quanquant.Agent.Runner.Events.{
  AgentEvent, delivered, confirmed, landed, child_failed, latched, reconnected, child_started,
  restarted, fresh_runner, started, child_ready, report_row, landed_in, agent_step,
}
use quanquant.Agent.Runner.Once.{
  find-append, load_persisted_health-buffer, assert_account-executions,
}

-- The row is a report, or an answer with the result that the ledger has for its command.
abbrev pub Says : List Execution → Option String → String → Type 0
Says t none payload = Unit {0}
Says t (some c) payload = result_of (find? (by_command c) t) ≡ some payload

abbrev pub SaysRow : List Execution → OutboxRow → Type 0
SaysRow t r = Says t r.cmd_id r.payload

unfoldable pub IsHonest : Buffer → Type 0
IsHonest b = All (SaysRow b.executions) b.outbox

module _ (t : List Execution) where
  All-append :
      (rows : List OutboxRow) (r : OutboxRow)
      → All (SaysRow t) rows
      → SaysRow t r
      → All (SaysRow t) (rows ++ r ∷ [])
  All-append [] r h s = (s, tt)
  All-append (x ∷ rows) r (p, h) s = (p, All-append rows r h s)

  All-select :
      (p : OutboxRow → Bool) (rows : List OutboxRow)
      → All (SaysRow t) rows
      → All (SaysRow t) (select p rows)
  All-select p [] h = tt
  All-select p (x ∷ rows) (s, h) = elim (Bool-cases (p x)) [
    | inl kept ↦ rw kept (s, All-select p rows h)
    | inr gone ↦ rw gone (All-select p rows h)
  ]

  All-sent :
      (id now : ℕ) (rows : List OutboxRow)
      → All (SaysRow t) rows
      → All (SaysRow t) (update_where (has_id id) (λ r. record r { sent_at = some now }) rows)
  All-sent id now [] h = tt
  All-sent id now (x ∷ rows) (s, h) = elim (Bool-cases (has_id id x)) [
    | inl this ↦ rw this (s, All-sent id now rows h)
    | inr other ↦ rw other (s, All-sent id now rows h)
  ]

Says-added :
    (t : List Execution) (e : Execution) (c : Option String) (payload : String)
    → Says t c payload
    → Says (t ++ e ∷ []) c payload
Says-added t e none payload s = tt
Says-added t e (some c) payload s = ground (arith, find-append c t e)

-- The rows of a buffer that has the executions of an honest one.
IsHonest-rows :
    (b b' : Buffer)
    → b'.executions ≡ b.executions
    → All (SaysRow b.executions) b'.outbox
    → IsHonest b'
unfolding IsHonest
IsHonest-rows b b' same rows = rw same rows

ensure_schema_v2-rows :
    (b o : Buffer)
    → ensure_schema_v2 b ≡ some o
    → (o.executions ≡ b.executions) × ((o.outbox ≡ []) ⊎ (o.outbox ≡ b.outbox))
unfolding ensure_schema_v2
ensure_schema_v2-rows b o h = ground arith

ensure_schema_v2-IsHonest : (b o : Buffer) → ensure_schema_v2 b ≡ some o → IsHonest b → IsHonest o
unfolding IsHonest
ensure_schema_v2-IsHonest b o h s =
    let (same, rows) = ensure_schema_v2-rows b o h in
    elim rows [ inl empty ↦ rw empty tt | inr kept ↦ rw (same, kept) s ]

open_buffer-IsHonest :
    (now : ℕ) (b b' : Buffer) → open_buffer now b ≡ some b' → IsHonest b → IsHonest b'
unfolding prune_sent IsHonest
open_buffer-IsHonest now b b' h s = elim (Option-cases (ensure_schema_v2 b)) [
  | inl refused ↦ absurd (unfold open_buffer in ground arith)
  | inr (o, opened) ↦
      let pruned : prune_sent 7 now o ≡ b' = unfold open_buffer in ground arith in
      rw (← pruned) (All-select o.executions _ o.outbox (ensure_schema_v2-IsHonest b o opened s))
]

assert_account-IsHonest :
    (account : String) (b b' : Buffer)
    → assert_account account b ≡ some b'
    → IsHonest b
    → IsHonest b'
unfolding IsHonest
assert_account-IsHonest account b b' h s =
    let rows : b'.outbox ≡ b.outbox = unfold assert_account in ground arith in
    rw (assert_account-executions account b b' h, rows) s

append_ack_if_absent-IsHonest :
    (id result : String) (account : Option String) (mode : Option Mode) (b : Buffer)
    → lookup_command id b ≡ some result
    → IsHonest b
    → IsHonest (append_ack_if_absent id result account mode b).1
unfolding IsHonest lookup_command append_ack_if_absent
append_ack_if_absent-IsHonest id result account mode b known s =
    elim (Option-cases (find? (is_unsent_of id) b.outbox)) [
      | inr (r, there) ↦ rw (there, append_ack_if_absent) s
      | inl none_there ↦
          rw (none_there, append_ack_if_absent)
            (All-append b.executions b.outbox (outbox_row b.next_id (ack_of id result account mode))
              s known)
    ]

with_execution-IsHonest :
    (id kind result : String) (b : Buffer) → IsHonest b → IsHonest (with_execution id kind result b)
unfolding IsHonest
with_execution-IsHonest id kind result b s =
    All-map b.outbox
      (λ r.
        Says-added b.executions (record { cmd_id = id; kind = kind; result = result }) r.cmd_id
          r.payload)
      s

record_execution-IsHonest :
    (id kind result : String) (account : Option String) (mode : Option Mode) (b b' : Buffer) (i : ℕ)
    → record_execution id kind result account mode b ≡ some (i, b')
    → IsHonest b
    → IsHonest b'
unfolding record_execution lookup_command
record_execution-IsHonest id kind result account mode b b' i h s =
    elim (Option-cases (find? (by_command id) b.executions)) [
      | inr (e, old) ↦ absurd (ground arith)
      | inl new ↦
          let e : Execution = record { cmd_id = id; kind = kind; result = result } in
          let b1 = with_execution id kind result b in
          let now_known : lookup_command id b1 ≡ some result =
            ground (arith, find-append id b.executions e, str_eq_refl id) in
          let done : (append_ack_if_absent id result account mode b1).1 ≡ b' = ground arith in
          rw (← done) (
            append_ack_if_absent-IsHonest id result account mode b1 now_known
              (with_execution-IsHonest id kind result b s))
    ]

append_report-IsHonest :
    (kind payload : String) (account : Option String) (mode : Mode) (s : AgentRunner)
    → IsHonest s.buffer
    → IsHonest (landed_in (append (report_row kind payload account mode) s.buffer) s).buffer
unfolding append IsHonest
append_report-IsHonest kind payload account mode s h =
    All-append s.buffer.executions s.buffer.outbox
      (outbox_row s.buffer.next_id (report_row kind payload account mode)) h tt

recovery-IsHonest :
    (d : Storage) (s : AgentRunner)
    → IsHonest s.buffer
    → IsHonest (startup_recovery_probe d s).buffer
unfolding IsHonest startup_recovery_probe clear_sentinel set_health_epoch
recovery-IsHonest d s h = ground arith

load_persisted_health-IsHonest :
    (s : AgentRunner) → IsHonest s.buffer → IsHonest (load_persisted_health s).buffer
load_persisted_health-IsHonest s h = rw (load_persisted_health-buffer s) h

started-IsHonest :
    (mode : Mode) (now : ℕ) (d : Storage) (s : AgentRunner)
    → IsHonest s.buffer
    → IsHonest (started mode now d s).buffer
started-IsHonest mode now d s h = elim (Option-cases (open_buffer now s.buffer)) [
  | inl refused ↦ rw (refused, started) h
  | inr (b, o) ↦
      let runner = fresh_runner mode b in
      rw (o, started)
        (recovery-IsHonest d (load_persisted_health runner)
          (load_persisted_health-IsHonest runner (open_buffer-IsHonest now s.buffer b o h)))
]

child_ready-IsHonest :
    (account : String) (now : ℕ) (s : AgentRunner)
    → IsHonest s.buffer
    → IsHonest (child_ready account now s).buffer
child_ready-IsHonest account now s h = elim (Option-cases (open_buffer now s.buffer)) [
  | inl refused ↦ rw (refused, child_ready) h
  | inr (opened, o) ↦
      let honest = open_buffer-IsHonest now s.buffer opened o h in
      elim (Option-cases (assert_account account opened)) [
        | inl refused ↦ rw (o, refused, child_ready) honest
        | inr (b, a) ↦ rw (o, a, child_ready) (assert_account-IsHonest account opened b a honest)
      ]
]

latch-IsHonest :
    (detail : String) (expected current : Option ℕ) (s : AgentRunner)
    → IsHonest s.buffer
    → IsHonest (latch detail expected current s).buffer
unfolding IsHonest latch write_sentinel
latch-IsHonest detail expected current s h = ground arith

module _ (dumps : CommandResult → String) where
  perform-IsHonest :
      (c : DownCommand) (reply : Option CommandResult) (fate : CallFate) (s : AgentRunner)
      → IsHonest s.buffer
      → IsHonest (perform dumps c reply fate s).1.buffer
  unfolding perform
  perform-IsHonest c reply not_taken s h = h
  perform-IsHonest c reply cut_off s h = h
  perform-IsHonest c reply taken s h =
      let result = dumps (result_or_timeout reply) in
      let recorded =
        record_execution c.cmd_id c.kind result (some s.account) (some s.mode) s.buffer in
      elim (Option-cases recorded) [
        | inl refused ↦ rw (refused, perform) h
        | inr ((i, b), done) ↦
            rw (done, perform)
              (record_execution-IsHonest c.cmd_id c.kind result (some s.account) (some s.mode)
                s.buffer b i done h)
      ]

  delivered-IsHonest :
      (c : DownCommand) (now : ℕ) (reply : Option CommandResult) (fate : CallFate) (s : AgentRunner)
      → IsHonest s.buffer
      → IsHonest (execute_mutating_command dumps c now reply fate s).1.buffer
  unfolding ensure_cmd_ack_pending execute_mutating_command IsHonest
  delivered-IsHonest c now reply fate s h = elim (Option-cases (lookup_command c.cmd_id s.buffer)) [
    | inr (cached, old) ↦
        rw (old, execute_mutating_command)
          (append_ack_if_absent-IsHonest c.cmd_id cached (some s.account) (some s.mode) s.buffer old
            h)
    | inl new ↦
        let performed_now = perform-IsHonest c reply fate s h in
        rw (new, execute_mutating_command) (ground (arith, h, performed_now))
  ]

  agent_step-IsHonest :
      (e : AgentEvent) (s : AgentRunner)
      → IsHonest s.buffer
      → IsHonest (agent_step dumps e s).buffer
  unfolding agent_step
  agent_step-IsHonest (delivered c now reply fate) s h = delivered-IsHonest c now reply fate s h
  agent_step-IsHonest (confirmed id now) s h =
      unfold mark_sent IsHonest in All-sent s.buffer.executions id now s.buffer.outbox h
  agent_step-IsHonest (landed kind payload account mode) s h =
      append_report-IsHonest kind payload account mode s h
  agent_step-IsHonest (child_failed detail) s h = unfold write_sentinel IsHonest in h
  agent_step-IsHonest (latched detail expected current) s h =
      latch-IsHonest detail expected current s h
  agent_step-IsHonest reconnected s h = load_persisted_health-IsHonest s h
  agent_step-IsHonest (child_started account now) s h = child_ready-IsHonest account now s h
  agent_step-IsHonest (restarted mode now d) s h = started-IsHonest mode now d s h

  unfoldable pub agent_run : List AgentEvent → AgentRunner → AgentRunner
  agent_run [] s = s
  agent_run (e ∷ es) s = agent_run es (agent_step dumps e s)

  pub agent_run-IsHonest :
      (es : List AgentEvent) (s : AgentRunner)
      → IsHonest s.buffer
      → IsHonest (agent_run es s).buffer
  unfolding agent_run
  agent_run-IsHonest [] s h = h
  agent_run-IsHonest (e ∷ es) s h =
      agent_run-IsHonest es (agent_step dumps e s) (agent_step-IsHonest e s h)
