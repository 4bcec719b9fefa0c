-- ===== src/Agent/Runner/Tests.antt =====
-- Runs of the runner, and the theorems at them.
use quanquant.Base.{◌+◌, ◌≤◌, ◌≡◌, refl, String, true, false, none, some, List, [], ◌∷◌, find?}
use quanquant.Base.Int.{pos}
use quanquant.Broker.Types.{sim}
use quanquant.Agent.Buffer.{
  Buffer, absent, lookup_command, open_buffer, ensure_schema_v2, prune_sent, assert_account, append,
  mark_sent, record_execution, append_ack_if_absent, ensure_cmd_ack_pending, write_sentinel,
  clear_sentinel, set_health_epoch, get_health_epoch, is_unsent_of,
}
use quanquant.Agent.Runner.{
  DownCommand, CommandResult, AgentRunner, taken, cut_off, replayed, perform,
  execute_mutating_command, latch, load_persisted_health, startup_recovery_probe,
}
use quanquant.Agent.Runner.Events.{
  AgentEvent, delivered, confirmed, landed, child_failed, latched, reconnected, child_started,
  restarted, agent_step, asks, losses,
}
use quanquant.Agent.Runner.Once.{asks-le}
use quanquant.Agent.Runner.Honest.{IsHonest, agent_run}
use quanquant.Agent.Runner.Answers.{payload_of, delivered_again}
use quanquant.Agent.Runner.Latch.{asks-latched}

abbrev fresh_buffer : Buffer
fresh_buffer = record {
  has_outbox = false;
  outbox = [];
  next_id = 1;
  executions = [];
  meta = record { schema_version = none; account = none; health_epoch = none };
  sentinel = absent;
}

abbrev agent : AgentRunner
agent = record {
  buffer = fresh_buffer;
  account = "A1";
  mode = sim;
  latched = false;
  latch_detail = none;
  health_epoch = pos 0;
}

abbrev placement : DownCommand
placement = record { cmd_id = "c1"; kind = "place"; account = "A1"; mode = sim; expires_at = 100 }

abbrev done : CommandResult
done = record { ok = true; result = none; error_kind = none; message = none }

abbrev dumped : CommandResult → String
dumped r = "{\"ok\": true}"

-- The session ends during the first call, the second is recorded, and its answer is confirmed; then
-- the child fails, and the program is started again on a storage that works.
abbrev life : List AgentEvent
life =
    child_started "A1" 1
    ∷ delivered placement 10 (some done) cut_off
    ∷ delivered placement 20 (some done) taken
    ∷ delivered placement 30 (some done) taken
    ∷ confirmed 1 40
    ∷ landed "deal" "{}" (some "A1") sim
    ∷ child_failed "disk"
    ∷ latched "disk" (some 1) (some 1)
    ∷ delivered (record placement { cmd_id = "c2" }) 50 none taken
    ∷ reconnected
    ∷ restarted sim 60 (record { probed = true; epoch_written = true; sentinel_removed = true })
    ∷ child_started "A1" 61
    ∷ delivered (record placement { cmd_id = "c2" }) 70 none taken
    ∷ []

asks-life : asks dumped "c1" life agent ≡ 2
unfolding asks agent_step execute_mutating_command perform lookup_command record_execution
    append_ack_if_absent ensure_cmd_ack_pending mark_sent append write_sentinel latch
    load_persisted_health startup_recovery_probe open_buffer ensure_schema_v2 prune_sent
    assert_account clear_sentinel set_health_epoch get_health_epoch
asks-life = refl

asks-le_example : asks dumped "c1" life agent ≤ 1 + losses dumped "c1" life agent
asks-le_example = asks-le dumped "c1" life agent

agent-IsHonest : IsHonest agent.buffer
unfolding IsHonest
agent-IsHonest = tt

c1_known : lookup_command "c1" (agent_run dumped life agent).buffer ≡ some "{\"ok\": true}"
unfolding agent_run agent_step execute_mutating_command perform lookup_command record_execution
    append_ack_if_absent ensure_cmd_ack_pending mark_sent append write_sentinel latch
    load_persisted_health startup_recovery_probe open_buffer ensure_schema_v2 prune_sent
    assert_account clear_sentinel set_health_epoch get_health_epoch
c1_known = refl

delivered_again_example :
    let (handled, s') =
      execute_mutating_command dumped placement 80 none taken (agent_run dumped life agent) in
    (handled ≡ replayed)
    × (payload_of (find? (is_unsent_of "c1") s'.buffer.outbox) ≡ some "{\"ok\": true}")
delivered_again_example =
    delivered_again dumped life agent placement 80 none taken "{\"ok\": true}" agent-IsHonest
      c1_known

abbrev broken : List AgentEvent
broken =
    delivered placement 20 (some done) taken
    ∷ reconnected
    ∷ child_started "A1" 30
    ∷ delivered placement 40 (some done) taken
    ∷ []

asks-latched_example : asks dumped "c1" broken (record agent { latched = true }) ≡ 0
asks-latched_example = asks-latched dumped "c1" broken (record agent { latched = true }) refl refl
