-- ===== src/Broker/AgentCommands/Sound.antt =====
-- The declared constraints of the table of the commands, through the calls on the ledger.
use quanquant.Base.{
  ℕ, ◌≡◌, refl, false, ◌&&◌, not, Option, some, List, [], ◌∷◌, String, ◌==◌, Bool-cases, inl, inr,
}
use quanquant.Broker.Orders.{Order}
use quanquant.Broker.AgentCommands.{
  AgentCommand, Commands, CommandOutcome, ok, error, unknown, Via, ack, query_qty, report, local,
  is_unset, cas_resolve, mark_transport_acked, resolve_never_dispatched,
}
use quanquant.Broker.AgentCommands.Effects.{
  Books, with_commands, UpCmdAck, ends_with, update_done, update_refused, update_kept,
}
use quanquant.Broker.AgentCommands.Answers.{
  apply_ack_on, resolve_update_via_query_qty, resolve_unresolved_cancel_via_report, is_final,
  opt_is,
}
use quanquant.Broker.AgentCommands.Calls.{
  is_decisive, outcome_of, written, apply_effects-written, ends_with-written, update_done-commands,
}
use quanquant.Broker.AgentCommands.Checks.{
  is_ack, unmet, IsSound, Adds-IsSound, cas_resolve-Adds, set_unknown-Adds, mark_resent-Adds,
  mark_timeout_observed-Adds, mark_transport_acked-Adds, marked_is_met,
}
use quanquant.Broker.AgentCommands.Final.{
  LedgerCall, answered, undispatched, queried, reported, timed, resent, call,
}

-- The tables after the calls.
unfoldable pub after_calls : List LedgerCall → Books → Books
after_calls [] b = b
after_calls (c ∷ cs) b = after_calls cs (call c b)

cas_resolve-IsSound :
    (id : String) (o : CommandOutcome) (v : Via) (now : ℕ) (t : Commands)
    → is_ack v ≡ false
    → IsSound t
    → IsSound (cas_resolve id o v now t).1
cas_resolve-IsSound id o v now t aside =
    Adds-IsSound _ _ (cas_resolve-Adds id o v now t) (rw aside refl)

written-IsSound :
    (row : AgentCommand) (a : UpCmdAck) (now : ℕ) (t : Commands)
    → unmet row.cmd_id t ≡ 0
    → IsSound t
    → IsSound (written row a now t).1
written-IsSound row a now t met s = elim (Bool-cases (is_decisive a)) [
  | inr unclear ↦ rw unclear (Adds-IsSound _ _ (set_unknown-Adds row.cmd_id t) refl s)
  | inl decisive ↦
      rw decisive (Adds-IsSound _ _ (cas_resolve-Adds row.cmd_id (outcome_of a) ack now t) met s)
]

answer-IsSound :
    (row : AgentCommand) (u : ℕ) (a : UpCmdAck) (now : ℕ) (b : Books)
    → IsSound b.commands
    → IsSound (apply_ack_on row u a now b).1.commands
unfolding apply_ack_on IsSound
answer-IsSound row u a now b s =
    let marked = with_commands (mark_transport_acked row.cmd_id u now b.commands).1 b in
    let sound = Adds-IsSound _ _ (mark_transport_acked-Adds row.cmd_id u now b.commands) refl s in
    let (single, _) = s in
    let rows = (apply_effects-written row a now marked).1 in
    elim (Bool-cases (row.user_id == u)) [
      | inr other ↦ rw other s
      | inl mine ↦ elim (Bool-cases (mark_transport_acked row.cmd_id u now b.commands).0) [
        | inr again ↦ rw (mine, again) sound
        | inl first ↦ elim (Bool-cases (is_unset row.resolved_at)) [
          | inr over ↦ rw (mine, first, over) sound
          | inl unresolved ↦
              let met = marked_is_met row.cmd_id u now b.commands (single row.cmd_id) first in
              rw (mine, first, unresolved, rows)
                (written-IsSound row a now marked.commands met sound)
        ]
      ]
    ]

module _ (row : AgentCommand) (now : ℕ) (b : Books) (s : IsSound b.commands) where
  ends_with-IsSound :
      (o : CommandOutcome) (v : Via) (f : Books → Books)
      → is_ack v ≡ false
      → ((d : Books) → (f d).commands ≡ d.commands)
      → IsSound (ends_with row o v now f b).1.commands
  ends_with-IsSound o v f aside h =
      rw (ends_with-written row o v now f b h).1
        (cas_resolve-IsSound row.cmd_id o v now b.commands aside s)

  query-IsSound :
      (o : Order) (q : Option ℕ) → IsSound (resolve_update_via_query_qty row o q now b).1.commands
  unfolding resolve_update_via_query_qty
  query-IsSound o q =
      let determinable = not (row.payload.qty == o.qty) in
      elim (Bool-cases (determinable && opt_is q row.payload.qty)) [
        | inl reached ↦ rw reached (
            ends_with-IsSound ok query_qty (update_done row now (some o)) refl
              (update_done-commands row now (some o)))
        | inr not_reached ↦ elim (Bool-cases (determinable && opt_is q o.qty)) [
          | inl kept ↦
              rw (not_reached, kept)
                (ends_with-IsSound error query_qty (update_refused row) refl (λ d. refl))
          | inr unclear ↦ elim (Bool-cases (is_final o.status)) [
            | inl over ↦
                rw (not_reached, unclear, over)
                  (ends_with-IsSound unknown report (update_kept row) refl (λ d. refl))
            | inr working ↦ rw (not_reached, unclear, working) s
          ]
        ]
      ]

  report-IsSound :
      (o : Order) → IsSound (resolve_unresolved_cancel_via_report row o now b).1.commands
  unfolding resolve_unresolved_cancel_via_report
  report-IsSound o = elim (Bool-cases (is_final o.status)) [
    | inr working ↦ rw working s
    | inl over ↦ rw over (ends_with-IsSound unknown report (λ d. d) refl (λ d. refl))
  ]

call-IsSound : (c : LedgerCall) (b : Books) → IsSound b.commands → IsSound (call c b).commands
unfolding call resolve_never_dispatched
call-IsSound (answered row u a now) b s = answer-IsSound row u a now b s
call-IsSound (undispatched id now) b s = cas_resolve-IsSound id error local now b.commands refl s
call-IsSound (queried row o q now) b s = query-IsSound row now b s o q
call-IsSound (reported row o now) b s = report-IsSound row now b s o
call-IsSound (timed id now) b s =
    Adds-IsSound _ _ (mark_timeout_observed-Adds id now b.commands) refl s
call-IsSound (resent id now) b s = Adds-IsSound _ _ (mark_resent-Adds id now b.commands) refl s

-- If the table of the commands has at most one row for each id and satisfies its declared
-- constraints (what is resolved says by what, and what an answer resolved has been replied to), it
-- still does after any sequence of answers, resolvers, local endings, timeouts and replays, each of
-- which may have read any row and any order.
pub after_calls-IsSound :
    (calls : List LedgerCall) (b : Books)
    → IsSound b.commands
    → IsSound (after_calls calls b).commands
unfolding after_calls
after_calls-IsSound [] b s = s
after_calls-IsSound (c ∷ cs) b s = after_calls-IsSound cs (call c b) (call-IsSound c b s)
