-- ===== src/Broker/AgentCommands/Tests.antt =====
-- Runs of the ledger of commands, and the theorems at them.
use quanquant.Base.{ℕ, ◌≡◌, refl, arith, Option, true, none, some, List, [], ◌∷◌}
use quanquant.Broker.Types.{real}
use quanquant.Broker.Samples.{order, empty_ledger}
use quanquant.Broker.AgentCommands.{
  update, AgentCommand, Via, query_qty, new_command, cas_resolve, mark_transport_acked,
  resolve_never_dispatched, mark_timeout_observed,
}
use quanquant.Broker.AgentCommands.Effects.{Books, UpCmdAck, apply_update, apply_update_ack}
use quanquant.Broker.AgentCommands.Answers.{apply_ack_on, resolve_update_via_query_qty}
use quanquant.Broker.AgentCommands.Final.{
  LedgerCall, answered, undispatched, queried, timed, call, ends, endings,
}
use quanquant.Broker.AgentCommands.Checks.{IsSound, satisfies_checks}
use quanquant.Broker.AgentCommands.Sound.{after_calls, after_calls-IsSound}

abbrev raise_qty : AgentCommand
raise_qty =
    new_command
      (record {
        cmd_id = "u1";
        kind = update;
        user_id = 1;
        broker = "shioaji";
        account = "A1";
        mode = real;
        payload = record { price = none; qty = 5 };
        client_order_id = some "c1";
        ordno = some "o1";
        reservation_id = none;
        expiry_ms = 60;
      })
      10

abbrev books : Books
books = record { commands = raise_qty ∷ []; ledger = empty_ledger; quotas = []; raw = [] }

abbrev says_ok : UpCmdAck
says_ok = record { ok = true; ordno = none; broker_order_id = none; error_kind = none }

-- The route times out, a query finds the new quantity, and the late answer reads a row that was not
-- resolved yet.
abbrev race : List LedgerCall
race =
    timed "u1" 20
    ∷ queried raise_qty order (some 5) 30
    ∷ answered raise_qty 1 says_ok 31
    ∷ undispatched "u1" 32
    ∷ []

endings-race : endings "u1" race books ≡ 1
unfolding endings ends call apply_ack_on apply_update apply_update_ack cas_resolve
    mark_transport_acked resolve_update_via_query_qty resolve_never_dispatched mark_timeout_observed
endings-race = refl

-- The query ended it, and the reply is on record all the same.
abbrev end_of : AgentCommand → Option Via × Option ℕ
end_of c = (c.resolved_via, c.transport_acked_at)

abbrev ends_of : List AgentCommand → List (Option Via × Option ℕ)
ends_of [] = []
ends_of (c ∷ t) = end_of c ∷ ends_of t

after_calls-race : ends_of (after_calls race books).commands ≡ (some query_qty, some 31) ∷ []
unfolding after_calls call apply_ack_on apply_update apply_update_ack cas_resolve
    mark_transport_acked resolve_update_via_query_qty resolve_never_dispatched mark_timeout_observed
after_calls-race = refl

books-IsSound : IsSound books.commands
unfolding IsSound satisfies_checks
books-IsSound = (λ id. ground arith, refl)

after_calls-IsSound_example : IsSound (after_calls race books).commands
after_calls-IsSound_example = after_calls-IsSound race books books-IsSound
