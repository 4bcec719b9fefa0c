-- ===== src/Agent/Runner/Once.antt =====
-- How often a command is executed, over the life of the buffer.
use quanquant.Base.{
  ℕ, ◌+◌, ◌≤◌, ◌≡◌, refl, ap, ◌∙◌, String, ◌&&◌, Option, none, some, List, [], ◌∷◌, ◌++◌, arith,
  str_eq, str_eq_iff, if◌then◌else◌, find?, Option-cases, inl, inr,
}
use quanquant.Base.Int.{negsuc}
use quanquant.Broker.Types.{Mode}
use quanquant.Agent.Buffer.{
  Buffer, NewRow, Execution, by_command, result_of, lookup_command, open_buffer, ensure_schema_v2,
  prune_sent, assert_account, append, mark_sent, write_sentinel, clear_sentinel, set_health_epoch,
  ensure_cmd_ack_pending, append_ack_if_absent, record_execution, with_execution,
}
use quanquant.Agent.Runner.{
  AgentRunner, DownCommand, CommandResult, CallFate, taken, not_taken, cut_off, with_buffer,
  perform, execute_mutating_command, latch, load_persisted_health, Storage, startup_recovery_probe,
  result_or_timeout,
}
use quanquant.Agent.Runner.Events.{
  AgentEvent, delivered, confirmed, landed, child_failed, latched, reconnected, child_started,
  restarted, fresh_runner, started, child_ready, report_row, landed_in, agent_step, is_asked,
  is_lost, of_command, asks, losses,
}

-- The calls that write no execution.
open_buffer-executions :
    (now : ℕ) (b b' : Buffer) → open_buffer now b ≡ some b' → b'.executions ≡ b.executions
unfolding open_buffer ensure_schema_v2 prune_sent
open_buffer-executions now b b' h = ground arith

pub assert_account-executions :
    (account : String) (b b' : Buffer)
    → assert_account account b ≡ some b'
    → b'.executions ≡ b.executions
unfolding assert_account
assert_account-executions account b b' h = ground arith

append_ack_if_absent-executions :
    (id result : String) (account : Option String) (mode : Option Mode) (b : Buffer)
    → (append_ack_if_absent id result account mode b).1.executions ≡ b.executions
unfolding append_ack_if_absent
append_ack_if_absent-executions id result account mode b = ground arith

append-executions :
    (n : NewRow) (s : AgentRunner)
    → (landed_in (append n s.buffer) s).buffer.executions ≡ s.buffer.executions
unfolding append
append-executions n s = ground arith

latch-executions :
    (detail : String) (expected current : Option ℕ) (s : AgentRunner)
    → (latch detail expected current s).buffer.executions ≡ s.buffer.executions
unfolding latch write_sentinel
latch-executions detail expected current s = ground arith

pub load_persisted_health-buffer : (s : AgentRunner) → (load_persisted_health s).buffer ≡ s.buffer
unfolding load_persisted_health
load_persisted_health-buffer s = ground arith

recovery-executions :
    (d : Storage) (s : AgentRunner)
    → (startup_recovery_probe d s).buffer.executions ≡ s.buffer.executions
unfolding startup_recovery_probe clear_sentinel set_health_epoch
recovery-executions d s = ground arith

started-executions :
    (mode : Mode) (now : ℕ) (d : Storage) (s : AgentRunner)
    → (started mode now d s).buffer.executions ≡ s.buffer.executions
started-executions mode now d s = elim (Option-cases (open_buffer now s.buffer)) [
  | inl refused ↦ rw (refused, started) refl
  | inr (b, o) ↦
      let loaded = load_persisted_health (fresh_runner mode b) in
      rw (o, started)
        (recovery-executions d loaded
          ∙ (ap (λ (x : Buffer). x.executions) (load_persisted_health-buffer (fresh_runner mode b))
              ∙ open_buffer-executions now s.buffer b o))
]

child_ready-executions :
    (account : String) (now : ℕ) (s : AgentRunner)
    → (child_ready account now s).buffer.executions ≡ s.buffer.executions
child_ready-executions account now s = elim (Option-cases (open_buffer now s.buffer)) [
  | inl refused ↦ rw (refused, child_ready) refl
  | inr (opened, o) ↦ elim (Option-cases (assert_account account opened)) [
    | inl refused ↦ rw (o, refused, child_ready) (open_buffer-executions now s.buffer opened o)
    | inr (b, a) ↦
        rw (o, a, child_ready)
          (assert_account-executions account opened b a
            ∙ open_buffer-executions now s.buffer opened o)
  ]
]

pub find-append :
    (id : String) (t : List Execution) (e : Execution)
    → result_of (find? (by_command id) (t ++ e ∷ [])) ≡ (elim (find? (by_command id) t) [
      | some x ↦ some x.result
      | none ↦ if str_eq e.cmd_id id then some e.result else none
    ])
find-append id [] e = ground arith
find-append id (x ∷ t) e = ground (arith, find-append id t e)

-- What the executions of a buffer say of a command, when they are the same, and when one is added.
lookup-same :
    (id : String) (b b' : Buffer)
    → b'.executions ≡ b.executions
    → lookup_command id b' ≡ lookup_command id b
unfolding lookup_command
lookup-same id b b' same = rw same refl

pub record_execution-executions :
    (c kind result : String) (account : Option String) (mode : Option Mode) (b b' : Buffer) (i : ℕ)
    → record_execution c kind result account mode b ≡ some (i, b')
    → (lookup_command c b ≡ none) × (b'.executions ≡ (with_execution c kind result b).executions)
unfolding record_execution lookup_command
record_execution-executions c kind result account mode b b' i h =
    ground (
      arith,
      append_ack_if_absent-executions c result account mode (with_execution c kind result b),
    )

lookup-recorded :
    (id c kind result : String) (b b' : Buffer)
    → b'.executions ≡ (with_execution c kind result b).executions
    → lookup_command id b' ≡ (elim (lookup_command id b) [
      | some r ↦ some r
      | none ↦ if str_eq c id then some result else none
    ])
unfolding lookup_command
lookup-recorded id c kind result b b' same = rw same (
    ground
      (arith, find-append id b.executions (record { cmd_id = c; kind = kind; result = result })))

abbrev is_known : Option String → ℕ
is_known none = 0
is_known (some r) = 1

-- Whether the command stands in the ledger of the buffer.
abbrev known : String → AgentRunner → ℕ
known id s = is_known (lookup_command id s.buffer)

known-same :
    (id : String) (s s' : AgentRunner)
    → s'.buffer.executions ≡ s.buffer.executions
    → known id s' ≡ known id s
known-same id s s' same = rw (lookup-same id s.buffer s'.buffer same) refl

module _ (dumps : CommandResult → String) where
  perform-known :
      (id : String) (c : DownCommand) (reply : Option CommandResult) (fate : CallFate)
      (s : AgentRunner)
      → (if str_eq c.cmd_id id && is_asked (perform dumps c reply fate s).0 then 1 else 0)
          + known id s
        ≤ (if str_eq c.cmd_id id && is_lost (perform dumps c reply fate s).0 then 1 else 0)
          + known id (perform dumps c reply fate s).1
  unfolding perform
  perform-known id c reply not_taken s = ground arith
  perform-known id c reply cut_off s = ground arith
  perform-known id c reply taken s =
      let result = dumps (result_or_timeout reply) in
      let recorded =
        record_execution c.cmd_id c.kind result (some s.account) (some s.mode) s.buffer in
      elim (Option-cases recorded) [
        | inl refused ↦ rw (refused, perform) (ground arith)
        | inr ((i, b), done) ↦
            let (new, added) =
              record_execution-executions c.cmd_id c.kind result (some s.account) (some s.mode)
                s.buffer b i done in
            let now_known = lookup-recorded id c.cmd_id c.kind result s.buffer b added in
            rw (done, perform)
              (ground (
                arith,
                new,
                now_known,
                str_eq_iff c.cmd_id id,
                ap (λ (x : String). lookup_command x s.buffer),
              ))
      ]

  delivered-known :
      (id : String) (c : DownCommand) (now : ℕ) (reply : Option CommandResult) (fate : CallFate)
      (s : AgentRunner)
      → of_command dumps (is_asked) id (delivered c now reply fate) s + known id s
        ≤ of_command dumps (is_lost) id (delivered c now reply fate) s
          + known id (execute_mutating_command dumps c now reply fate s).1
  unfolding execute_mutating_command ensure_cmd_ack_pending
  delivered-known id c now reply fate s = elim (Option-cases (lookup_command c.cmd_id s.buffer)) [
    | inr (cached, old) ↦
        rw (old, execute_mutating_command)
          (ground (
            arith,
            known-same id s
                (with_buffer
                  (append_ack_if_absent c.cmd_id cached (some s.account) (some s.mode) s.buffer).1
                  s)
                (append_ack_if_absent-executions c.cmd_id cached (some s.account) (some s.mode)
                  s.buffer),
          ))
    | inl new ↦ rw (new, execute_mutating_command) (ground (arith, perform-known id c reply fate s))
  ]

  agent_step-known :
      (id : String) (e : AgentEvent) (s : AgentRunner)
      → of_command dumps is_asked id e s + known id s
        ≤ of_command dumps is_lost id e s + known id (agent_step dumps e s)
  unfolding agent_step mark_sent write_sentinel latch
  agent_step-known id (delivered c now reply fate) s = delivered-known id c now reply fate s
  agent_step-known id (confirmed event_id now) s =
      omega (arith, known-same id s (with_buffer (mark_sent event_id now s.buffer) s) refl)
  agent_step-known id (landed kind payload account mode) s =
      let row = report_row kind payload account mode in
      omega (arith, known-same id s (landed_in (append row s.buffer) s) (append-executions row s))
  agent_step-known id (child_failed detail) s =
      omega
        (arith, known-same id s (with_buffer (write_sentinel (negsuc 0) detail s.buffer) s) refl)
  agent_step-known id (latched detail expected current) s = omega (
    arith,
    known-same id s (latch detail expected current s) (latch-executions detail expected current s),
  )
  agent_step-known id reconnected s = omega (
    arith,
    known-same id s (load_persisted_health s)
        (ap (λ (x : Buffer). x.executions) (load_persisted_health-buffer s)),
  )
  agent_step-known id (child_started account now) s =
      omega
        (arith, known-same id s (child_ready account now s) (child_ready-executions account now s))
  agent_step-known id (restarted mode now d) s =
      omega (arith, known-same id s (started mode now d s) (started-executions mode now d s))

  asks-known :
      (id : String) (es : List AgentEvent) (s : AgentRunner)
      → asks dumps id es s + known id s ≤ 1 + losses dumps id es s
  unfolding asks losses
  asks-known id [] s = ground arith
  asks-known id (e ∷ es) s =
      omega (arith, agent_step-known id e s, asks-known id es (agent_step dumps e s))

-- Through any sequence of deliveries, confirmations, reports, failures, sessions and starts of the
-- program, the broker is asked for a command at most once, and once more for each time that it was
-- asked and nothing was recorded: because the database did not take the record, or because the
-- session, the program or an exception cut the handler off during the call.
pub asks-le :
    (dumps : CommandResult → String) (id : String) (es : List AgentEvent) (s : AgentRunner)
    → asks dumps id es s ≤ 1 + losses dumps id es s
asks-le dumps id es s = omega (arith, asks-known dumps id es s)
