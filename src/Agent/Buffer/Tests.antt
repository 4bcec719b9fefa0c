-- ===== src/Agent/Buffer/Tests.antt =====
-- Runs of the buffer, and the theorem at them.
use quanquant.Base.{◌≡◌, refl, true, none, some, List, [], ◌∷◌}
use quanquant.Base.Int.{pos}
use quanquant.Broker.Types.{sim}
use quanquant.Agent.Buffer.{
  Buffer, absent, NewRow, OutboxRow, outbox_row, ensure_schema_v2, assert_account,
}
use quanquant.Agent.Buffer.Kept.{
  BufferCall, reopened, claimed_for, appended, confirmed, executed, pruned, failed, recovered,
  buffer_calls, Holds, buffer_calls-Holds,
}

abbrev report : NewRow
report = record {
  kind = "deal";
  payload = "{}";
  account = some "A1";
  mode = some sim;
  cmd_id = none;
}

abbrev waiting : OutboxRow
waiting = outbox_row 1 report

abbrev one_report : Buffer
one_report = record {
  has_outbox = true;
  outbox = waiting ∷ [];
  next_id = 2;
  executions = [];
  meta = record { schema_version = some "1"; account = some "A1"; health_epoch = none };
  sentinel = absent;
}

-- The file of an older version is refused while a row waits in it, and rebuilt once it is sent.
refused_upgrade : ensure_schema_v2 one_report ≡ none
unfolding ensure_schema_v2
refused_upgrade = refl

refused_account : assert_account "A2" one_report ≡ none
unfolding assert_account
refused_account = refl

abbrev a_day : List BufferCall
a_day =
    reopened 100
    ∷ claimed_for "A2"
    ∷ appended report
    ∷ confirmed 2 200
    ∷ executed "c1" "place" "{}" (some "A1") (some sim)
    ∷ pruned 0 9000000
    ∷ failed (pos 1) "disk"
    ∷ recovered (pos 1)
    ∷ []

one_report-Holds : Holds waiting one_report
unfolding Holds
one_report-Holds = (refl, refl)

buffer_calls-Holds_example : Holds waiting (buffer_calls a_day one_report)
buffer_calls-Holds_example = buffer_calls-Holds waiting a_day one_report refl refl one_report-Holds
