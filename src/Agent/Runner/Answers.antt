-- ===== src/Agent/Runner/Answers.antt =====
-- A command that is delivered again, and what waits for it then.
use quanquant.Base.{
  ℕ, ◌≡◌, refl, ap, String, true, Option, none, some, List, [], ◌∷◌, ◌++◌, arith, str_eq_iff,
  str_eq_refl, find?, All, Bool-cases, Option-cases, inl, inr,
}
use quanquant.Broker.Types.{Mode}
use quanquant.Broker.Orders.{column_eq}
use quanquant.Agent.Buffer.{
  Buffer, OutboxRow, Execution, outbox_row, by_command, result_of, lookup_command,
  ensure_cmd_ack_pending, append_ack_if_absent, ack_of, is_unsent_of,
}
use quanquant.Agent.Runner.{
  AgentRunner, DownCommand, CommandResult, CallFate, replayed, execute_mutating_command,
}
use quanquant.Agent.Runner.Events.{AgentEvent}
use quanquant.Agent.Runner.Honest.{Says, SaysRow, IsHonest, agent_run, agent_run-IsHonest}

Says-column_eq :
    (t : List Execution) (id payload : String) (c : Option String)
    → column_eq c id ≡ true
    → Says t c payload
    → result_of (find? (by_command id) t) ≡ some payload
Says-column_eq t id payload none same s = absurd (cc)
Says-column_eq t id payload (some c) same s = rw ((str_eq_iff c id).0 same) at s

-- The first answer that waits for a command says what the ledger says.
waiting_answer :
    (t : List Execution) (id result : String) (rows : List OutboxRow) (r : OutboxRow)
    → result_of (find? (by_command id) t) ≡ some result
    → All (SaysRow t) rows
    → find? (is_unsent_of id) rows ≡ some r
    → r.payload ≡ result
waiting_answer t id result [] r known says found = absurd (cc)
waiting_answer t id result (x ∷ rows) r known (s, says) found =
    elim (Bool-cases (is_unsent_of id x)) [
      | inr other ↦ waiting_answer t id result rows r known says (rw other at found)
      | inl this ↦
          let found_here : x ≡ r = ground arith in
          let said = Says-column_eq t id x.payload x.cmd_id (ground arith) s in ground (arith, said)
    ]

abbrev pub payload_of : Option OutboxRow → Option String
payload_of none = none
payload_of (some r) = some r.payload

find-new :
    (id result : String) (account : Option String) (mode : Option Mode) (n : ℕ)
    (rows : List OutboxRow)
    → find? (is_unsent_of id) rows ≡ none
    → let r = outbox_row n (ack_of id result account mode) in
      find? (is_unsent_of id) (rows ++ r ∷ []) ≡ some r
find-new id result account mode n [] h = ground (arith, str_eq_refl id)
find-new id result account mode n (x ∷ rows) h =
    ground (arith, find-new id result account mode n rows)

again_waits :
    (id result : String) (account : Option String) (mode : Option Mode) (b : Buffer)
    → lookup_command id b ≡ some result
    → IsHonest b
    → payload_of (find? (is_unsent_of id) (append_ack_if_absent id result account mode b).1.outbox)
      ≡ some result
unfolding append_ack_if_absent lookup_command IsHonest
again_waits id result account mode b known h =
    elim (Option-cases (find? (is_unsent_of id) b.outbox)) [
      | inr (r, there) ↦
          rw (there, append_ack_if_absent)
            (rw there (ap some (waiting_answer b.executions id result b.outbox r known h there)))
      | inl none_there ↦
          rw (none_there, append_ack_if_absent)
            (ap payload_of (find-new id result account mode b.next_id b.outbox none_there))
    ]

-- Let the outbox be honest (what it answers for a command is what the ledger has for it). After any
-- deliveries, confirmations, reports, failures, sessions and starts of the program, if the ledger
-- then has a result for a command, a further delivery of the command at any time executes nothing,
-- and leaves a row that is not sent with that result for the command.
pub delivered_again :
    (dumps : CommandResult → String) (es : List AgentEvent) (start : AgentRunner) (c : DownCommand)
    (now : ℕ) (reply : Option CommandResult) (fate : CallFate) (result : String)
    → IsHonest start.buffer
    → lookup_command c.cmd_id (agent_run dumps es start).buffer ≡ some result
    → let s = agent_run dumps es start in
      let (handled, s') = execute_mutating_command dumps c now reply fate s in
      (handled ≡ replayed)
      × (payload_of (find? (is_unsent_of c.cmd_id) s'.buffer.outbox) ≡ some result)
unfolding execute_mutating_command ensure_cmd_ack_pending
delivered_again dumps es start c now reply fate result h known =
    let s = agent_run dumps es start in
    let honest = agent_run-IsHonest dumps es start h in
    rw (known, execute_mutating_command)
      (refl, again_waits c.cmd_id result (some s.account) (some s.mode) s.buffer known honest)
