-- ===== src/Agent/Runner/Events.antt =====
-- What happens to an agent over its life, and what its runner makes of it.
use quanquant.Base.{
  ℕ, ◌+◌, String, Bool, true, false, ◌&&◌, Option, none, some, List, [], ◌∷◌, str_eq, if◌then◌else◌,
}
use quanquant.Base.Int.{pos, negsuc}
use quanquant.Broker.Types.{Mode}
use quanquant.Agent.Buffer.{
  Buffer, NewRow, open_buffer, assert_account, append, mark_sent, write_sentinel,
}
use quanquant.Agent.Runner.{
  AgentRunner, DownCommand, CommandResult, CallFate, CommandEnd, performed, unrecorded, with_buffer,
  execute_mutating_command, latch, load_persisted_health, Storage, startup_recovery_probe,
}

-- What happens to an agent: the server's commands and confirmations, the child's reports and
-- failures, a new session, and a new start of the program.
pub data AgentEvent : Type 0 where
  delivered :
      (c : DownCommand) (now : ℕ) (reply : Option CommandResult) (fate : CallFate) → AgentEvent
  confirmed : (event_id now : ℕ) → AgentEvent
  landed : (kind payload : String) (account : Option String) (mode : Mode) → AgentEvent
  child_failed : (detail : String) → AgentEvent
  latched : (detail : String) (expected current : Option ℕ) → AgentEvent
  reconnected : AgentEvent
  child_started : (account : String) (now : ℕ) → AgentEvent
  restarted : (mode : Mode) (now : ℕ) (d : Storage) → AgentEvent

abbrev pub fresh_runner : Mode → Buffer → AgentRunner
fresh_runner mode b = record {
  buffer = b;
  account = "";
  mode = mode;
  latched = false;
  latch_detail = none;
  health_epoch = pos 0;
}

-- A refusal to open the file leaves no runner: the state is the one of before, and the next event
-- is another start.
abbrev pub started : Mode → ℕ → Storage → AgentRunner → AgentRunner
started mode now d s = elim (open_buffer now s.buffer) [
  | none ↦ s
  | some b ↦ startup_recovery_probe d (load_persisted_health (fresh_runner mode b))
]

-- `child_main` opens the same file and takes it for the account that it has connected
-- (quanquant/agent/native_runner.py); a refusal of either ends the child and the runner.
abbrev pub child_ready : String → ℕ → AgentRunner → AgentRunner
child_ready account now s = elim (open_buffer now s.buffer) [
  | none ↦ s
  | some opened ↦ elim (assert_account account opened) [
    | none ↦ with_buffer opened s
    | some b ↦ record (with_buffer b s) { account = account }
  ]
]

-- What `_on_raw` appends: a report, which belongs to no command.
abbrev pub report_row : String → String → Option String → Mode → NewRow
report_row kind payload account mode = record {
  kind = kind;
  payload = payload;
  account = account;
  mode = some mode;
  cmd_id = none;
}

abbrev pub landed_in : Option (ℕ × Buffer) → AgentRunner → AgentRunner
landed_in none s = s
landed_in (some (id, b)) s = with_buffer b s

abbrev pub is_asked : CommandEnd → Bool
is_asked (performed _) = true
is_asked unrecorded = true
is_asked _ = false

abbrev pub is_lost : CommandEnd → Bool
is_lost unrecorded = true
is_lost _ = false

module _ (dumps : CommandResult → String) where
  unfoldable pub agent_step : AgentEvent → AgentRunner → AgentRunner
  agent_step (delivered c now reply fate) s = (execute_mutating_command dumps c now reply fate s).1
  agent_step (confirmed id now) s = with_buffer (mark_sent id now s.buffer) s
  agent_step (landed kind payload account mode) s =
      landed_in (append (report_row kind payload account mode) s.buffer) s
  agent_step (child_failed detail) s = with_buffer (write_sentinel (negsuc 0) detail s.buffer) s
  agent_step (latched detail expected current) s = latch detail expected current s
  agent_step reconnected s = load_persisted_health s
  agent_step (child_started account now) s = child_ready account now s
  agent_step (restarted mode now d) s = started mode now d s

  abbrev pub of_command : (CommandEnd → Bool) → String → AgentEvent → AgentRunner → ℕ
  of_command p id (delivered c now reply fate) s =
      if str_eq c.cmd_id id && p (execute_mutating_command dumps c now reply fate s).0 then 1 else 0
  of_command p id _ s = 0

  -- How often the events ask the broker for the command `id`,
  unfoldable pub asks : String → List AgentEvent → AgentRunner → ℕ
  asks id [] s = 0
  asks id (e ∷ es) s = of_command is_asked id e s + asks id es (agent_step e s)

  -- and how often the record of that was lost.
  unfoldable pub losses : String → List AgentEvent → AgentRunner → ℕ
  losses id [] s = 0
  losses id (e ∷ es) s = of_command is_lost id e s + losses id es (agent_step e s)
