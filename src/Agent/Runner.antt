-- ===== src/Agent/Runner.antt =====
-- The runner of the agent (quanquant/agent/runner.py, `AgentRunner`): what it does with a command of
-- the server, and the latch of a failure with its recovery at the start of the program. The child
-- that calls the broker is the environment: each command comes with what the child replies. Writing
-- a result as JSON is a parameter.
pub mod Events
pub mod Once
pub mod Honest
pub mod Answers
pub mod Latch
mod Tests
use quanquant.Base.{
  ℕ, ◌+◌, String, Bool, true, false, ◌&&◌, ◌||◌, not, Option, none, some, List, [], ◌∷◌, leb, ◌==◌,
  str_eq, if◌then◌else◌,
}
use quanquant.Base.Int.{ℤ, pos, ◌+ℤ◌, max_ℤ}
use quanquant.Broker.Types.{Mode, mode_eq}
use quanquant.Agent.Buffer.{
  Buffer, Sentinel, absent, unreadable, written, lookup_command, ensure_cmd_ack_pending,
  record_execution, mark_sent, write_sentinel, clear_sentinel, get_health_epoch, set_health_epoch,
}

-- `DownPlace`, `DownCancel` and `DownUpdate`, with what is read of them before the call.
pub record DownCommand : Type 0 where
  pub cmd_id : String
  pub kind : String
  pub account : String
  pub mode : Mode
  pub expires_at : ℕ

pub record CommandResult : Type 0 where
  pub ok : Bool
  pub result : Option String
  pub error_kind : Option String
  pub message : Option String

abbrev pub no_response : CommandResult
no_response = record {
  ok = false;
  result = none;
  error_kind = some "timeout";
  message = some "agent 子程序無回應";
}

-- `none` is the `TimeoutError` of the child.
abbrev pub result_or_timeout : Option CommandResult → CommandResult
result_or_timeout none = no_response
result_or_timeout (some r) = r

pub record AgentRunner : Type 0 where
  pub buffer : Buffer
  pub account : String
  pub mode : Mode
  pub latched : Bool
  pub latch_detail : Option String
  pub health_epoch : ℤ

abbrev pub with_buffer : Buffer → AgentRunner → AgentRunner
with_buffer b s = record s { buffer = b }

-- How the handling of a command ends: the first four call nothing. In `unrecorded` the child has been
-- called and nothing is recorded of it, since the transaction failed or the handler was cut off; it
-- leaves the handler as an exception.
pub data CommandEnd : Type 0 where
  replayed rejected_failstop scope_mismatch expired : CommandEnd
  performed : (event_id : ℕ) → CommandEnd
  unrecorded : CommandEnd

-- `_is_expired`
abbrev pub is_expired : ℕ → ℕ → Bool
is_expired expires_at now = leb expires_at now

-- What becomes of a call of the child: the database takes the record, or it does not, or the handler
-- is cut off during the call. The end of the session cuts it off (`run_once` cancels the loop that
-- awaits the child, and what the child replies later is dropped), and so do the end of the program
-- and any exception of the call but a timeout.
pub data CallFate : Type 0 where
  taken not_taken cut_off : CallFate

module _ (dumps : CommandResult → String) where
  -- The call of the child, and the record of what came of it.
  unfoldable pub perform :
      DownCommand → Option CommandResult → CallFate → AgentRunner → CommandEnd × AgentRunner
  perform c reply not_taken s = (unrecorded, s)
  perform c reply cut_off s = (unrecorded, s)
  perform c reply taken s =
      elim (record_execution c.cmd_id c.kind (dumps (result_or_timeout reply)) (some s.account)
        (some s.mode) s.buffer) [
          | none ↦ (unrecorded, s)
          | some (event_id, b) ↦ (performed event_id, with_buffer b s)
        ]

  -- `_execute_mutating_command`
  unfoldable pub execute_mutating_command :
      DownCommand → ℕ → Option CommandResult → CallFate → AgentRunner → CommandEnd × AgentRunner
  execute_mutating_command c now reply fate s = elim (lookup_command c.cmd_id s.buffer) [
    | some cached ↦ (
      replayed,
      with_buffer (ensure_cmd_ack_pending c.cmd_id cached (some s.account) (some s.mode) s.buffer).1
          s,
    )
    | none ↦
        if s.latched
        then (rejected_failstop, s)
        else if not (str_eq c.account s.account) || not (mode_eq c.mode s.mode)
        then (scope_mismatch, s)
        else if is_expired c.expires_at now
        then (expired, s)
        else if s.latched
        then (rejected_failstop, s)
        else perform c reply fate s
  ]

abbrev pub is_outdated : Option ℕ → Option ℕ → Bool
is_outdated none current = false
is_outdated (some e) none = false
is_outdated (some e) (some c) = not (e == c)

-- `_latch`; a notice of another generation of the child is dropped.
unfoldable pub latch : String → Option ℕ → Option ℕ → AgentRunner → AgentRunner
latch detail expected current s =
    let next = s.health_epoch +ℤ pos 1 in
    let latched_now : AgentRunner = record s {
      latched = true;
      latch_detail = some detail;
      health_epoch = next;
      buffer = write_sentinel next detail s.buffer;
    } in
    if is_outdated expected current then s else latched_now

-- `_load_persisted_health`
unfoldable pub load_persisted_health : AgentRunner → AgentRunner
load_persisted_health s = elim s.buffer.sentinel [
  | unreadable ↦ record s {
    latched = true;
    latch_detail = some "sentinel 檔讀取失敗（fail-closed，需人工排查底層檔案）";
    health_epoch = get_health_epoch s.buffer;
  }
  | written epoch detail ↦ record s {
    latched = true;
    latch_detail = some detail;
    health_epoch = max_ℤ epoch (get_health_epoch s.buffer);
  }
  | absent ↦ record s { health_epoch = get_health_epoch s.buffer }
]

-- What the storage does in the recovery: the probe, and the writes that follow it.
pub record Storage : Type 0 where
  pub probed : Bool
  pub epoch_written : Bool
  pub sentinel_removed : Bool

-- `_startup_recovery_probe`
unfoldable pub startup_recovery_probe : Storage → AgentRunner → AgentRunner
startup_recovery_probe d s =
    let half_done = with_buffer (set_health_epoch s.health_epoch s.buffer) s in
    let recovered : AgentRunner = record s {
      latched = false;
      latch_detail = none;
      buffer = clear_sentinel (set_health_epoch s.health_epoch s.buffer);
    } in
    if not s.latched
    then s
    else if not d.probed
    then s
    else if not d.epoch_written
    then s
    else if not d.sentinel_removed
    then half_done
    else recovered
