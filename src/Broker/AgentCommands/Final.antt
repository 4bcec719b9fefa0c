-- ===== src/Broker/AgentCommands/Final.antt =====
-- The calls on the ledger, in any order, and how often they end a command.
use quanquant.Base.{
  ℕ, ◌+◌, ◌≤◌, ◌≡◌, refl, Bool, true, false, ◌&&◌, not, Option, some, List, [], ◌∷◌, String, arith,
  str_eq, ◌==◌, if◌then◌else◌, Bool-cases, inl, inr,
}
use quanquant.Broker.Orders.{Order}
use quanquant.Broker.AgentCommands.{
  AgentCommand, Commands, CommandOutcome, ok, error, unknown, Via, query_qty, report, local,
  is_unset, mark_transport_acked, mark_timeout_observed, mark_resent, resolve_never_dispatched,
}
use quanquant.Broker.AgentCommands.Effects.{
  Books, with_commands, UpCmdAck, ends_with, update_done, update_refused, update_kept,
}
use quanquant.Broker.AgentCommands.Answers.{
  Applied, already_resolved, applied, apply_ack_on, Resolution, confirmed, released,
  conservative_confirmed, resolve_update_via_query_qty, resolve_unresolved_cancel_via_report,
  is_resolution, is_final, opt_is, answer,
}
use quanquant.Broker.AgentCommands.Calls.{
  is_decisive, written, apply_effects-written, ends_with-written, open_rows, Spends,
  cas_resolve-Spends, written-Spends, mark_transport_acked-le, update_done-commands,
}

-- A call on the ledger. An answer and a resolver act on the row and the order that they have read,
-- and another transaction may have committed since: any row and any order is possible.
pub data LedgerCall : Type 0 where
  answered : (row : AgentCommand) (user_id : ℕ) (a : UpCmdAck) (now : ℕ) → LedgerCall
  undispatched : (cmd_id : String) (now : ℕ) → LedgerCall
  queried : (row : AgentCommand) (order : Order) (real_qty : Option ℕ) (now : ℕ) → LedgerCall
  reported : (row : AgentCommand) (order : Order) (now : ℕ) → LedgerCall
  timed : (cmd_id : String) (now : ℕ) → LedgerCall
  resent : (cmd_id : String) (now : ℕ) → LedgerCall

unfoldable pub call : LedgerCall → Books → Books
call (answered row u a now) b = (apply_ack_on row u a now b).1
call (undispatched id now) b = with_commands (resolve_never_dispatched id now b.commands).1 b
call (queried row o q now) b = (resolve_update_via_query_qty row o q now b).1
call (reported row o now) b = (resolve_unresolved_cancel_via_report row o now b).1
call (timed id now) b = with_commands (mark_timeout_observed id now b.commands).1 b
call (resent id now) b = with_commands (mark_resent id now b.commands) b

abbrev pub is_applied : Applied → Bool
is_applied applied = true
is_applied _ = false

-- Whether the call ended the command `id`, and so ran what follows its ending.
unfoldable pub ends : String → LedgerCall → Books → Bool
ends id (answered row u a now) b =
    str_eq row.cmd_id id && (is_decisive a && is_applied (apply_ack_on row u a now b).0)
ends id (undispatched c now) b = str_eq c id && (resolve_never_dispatched c now b.commands).0
ends id (queried row o q now) b =
    str_eq row.cmd_id id && is_resolution (resolve_update_via_query_qty row o q now b).0
ends id (reported row o now) b =
    str_eq row.cmd_id id && (resolve_unresolved_cancel_via_report row o now b).0
ends id (timed c now) b = false
ends id (resent c now) b = false

-- How many of the calls ended it.
unfoldable pub endings : String → List LedgerCall → Books → ℕ
endings id [] b = 0
endings id (c ∷ cs) b = (if ends id c b then 1 else 0) + endings id cs (call c b)

nothing_ends :
    (id : String) (x y : Bool) (t t' : Commands)
    → open_rows id t' ≤ open_rows id t
    → Spends id (x && (y && false)) t t'
nothing_ends id x y t t' h = ground arith

applied_ends :
    (id : String) (x y lost : Bool) (t marked t' : Commands)
    → open_rows id marked ≤ open_rows id t
    → Spends id (x && (y && not lost)) marked t'
    → Spends id (x && (y && is_applied (if lost then already_resolved else applied))) t t'
applied_ends id x y lost t marked t' fewer (spent, closed) = ground arith

answer_Spends :
    (id : String) (row : AgentCommand) (u : ℕ) (a : UpCmdAck) (now : ℕ) (b : Books)
    → Spends id
        (str_eq row.cmd_id id && (is_decisive a && is_applied (apply_ack_on row u a now b).0))
        b.commands
        (apply_ack_on row u a now b).1.commands
unfolding apply_ack_on
answer_Spends id row u a now b =
    let marked = with_commands (mark_transport_acked row.cmd_id u now b.commands).1 b in
    let (lost, rows) = apply_effects-written row a now marked in
    let fewer = mark_transport_acked-le id row.cmd_id u now b.commands in
    let nothing = nothing_ends id (str_eq row.cmd_id id) (is_decisive a) in
    elim (Bool-cases (row.user_id == u)) [
      | inr other ↦ rw other (nothing b.commands b.commands (omega arith))
      | inl mine ↦ elim (Bool-cases (mark_transport_acked row.cmd_id u now b.commands).0) [
        | inr again ↦ rw (mine, again) (nothing b.commands marked.commands fewer)
        | inl first ↦ elim (Bool-cases (is_unset row.resolved_at)) [
          | inr over ↦ rw (mine, first, over) (nothing b.commands marked.commands fewer)
          | inl unresolved ↦
              rw (mine, first, unresolved, lost, rows)
                (applied_ends id (str_eq row.cmd_id id) (is_decisive a)
                  (written row a now marked.commands).0 b.commands marked.commands
                  (written row a now marked.commands).1 fewer
                  (written-Spends id row a now marked.commands))
        ]
      ]
    ]

module _ (id : String) (row : AgentCommand) (now : ℕ) (b : Books) where
  ends_with-Spends :
      (o : CommandOutcome) (v : Via) (f : Books → Books)
      → ((d : Books) → (f d).commands ≡ d.commands)
      → Spends id
          (str_eq row.cmd_id id && not (ends_with row o v now f b).0)
          b.commands
          (ends_with row o v now f b).1.commands
  ends_with-Spends o v f h =
      let (lost, rows) = ends_with-written row o v now f b h in
      let spends = cas_resolve-Spends id row.cmd_id o v now b.commands in
      rw (lost, rows) (ground (arith, spends))

  resolved_Spends :
      (r : Resolution) (o : CommandOutcome) (v : Via) (f : Books → Books)
      → is_resolution r ≡ true
      → ((d : Books) → (f d).commands ≡ d.commands)
      → Spends id
          (str_eq row.cmd_id id && is_resolution (answer r (ends_with row o v now f b)).0)
          b.commands
          (answer r (ends_with row o v now f b)).1.commands
  resolved_Spends r o v f is h =
      let spends = ends_with-Spends o v f h in
      elim (Bool-cases (ends_with row o v now f b).0) [
        | inl lost ↦ rw lost (rw lost at spends)
        | inr won ↦ rw (won, is) (rw won at spends)
      ]

  query_Spends :
      (o : Order) (q : Option ℕ)
      → Spends id
          (str_eq row.cmd_id id && is_resolution (resolve_update_via_query_qty row o q now b).0)
          b.commands
          (resolve_update_via_query_qty row o q now b).1.commands
  unfolding resolve_update_via_query_qty
  query_Spends o q =
      let determinable = not (row.payload.qty == o.qty) in
      elim (Bool-cases (determinable && opt_is q row.payload.qty)) [
        | inl reached ↦ rw reached (
            resolved_Spends confirmed ok query_qty (update_done row now (some o)) refl
              (update_done-commands row now (some o)))
        | inr not_reached ↦ elim (Bool-cases (determinable && opt_is q o.qty)) [
          | inl kept ↦
              rw (not_reached, kept)
                (resolved_Spends released error query_qty (update_refused row) refl (λ d. refl))
          | inr unclear ↦ elim (Bool-cases (is_final o.status)) [
            | inl over ↦
                rw (not_reached, unclear, over)
                  (resolved_Spends conservative_confirmed unknown report (update_kept row) refl
                    (λ d. refl))
            | inr working ↦ rw (not_reached, unclear, working) (ground arith)
          ]
        ]
      ]

  report_Spends :
      (o : Order)
      → Spends id
          (str_eq row.cmd_id id && (resolve_unresolved_cancel_via_report row o now b).0)
          b.commands
          (resolve_unresolved_cancel_via_report row o now b).1.commands
  unfolding resolve_unresolved_cancel_via_report
  report_Spends o = elim (Bool-cases (is_final o.status)) [
    | inr working ↦ rw working (ground arith)
    | inl over ↦ rw over (ends_with-Spends unknown report (λ d. d) (λ d. refl))
  ]

timed-le :
    (id cmd_id : String) (now : ℕ) (t : Commands)
    → open_rows id (mark_timeout_observed cmd_id now t).1 ≤ open_rows id t
unfolding mark_timeout_observed
timed-le id cmd_id now [] = omega arith
timed-le id cmd_id now (c ∷ t) = ground (arith, timed-le id cmd_id now t)

resent-le :
    (id cmd_id : String) (now : ℕ) (t : Commands)
    → open_rows id (mark_resent cmd_id now t) ≤ open_rows id t
unfolding mark_resent
resent-le id cmd_id now [] = omega arith
resent-le id cmd_id now (c ∷ t) = ground (arith, resent-le id cmd_id now t)

pub call-Spends :
    (id : String) (c : LedgerCall) (b : Books)
    → Spends id (ends id c b) b.commands (call c b).commands
unfolding call ends resolve_never_dispatched
call-Spends id (answered row u a now) b = answer_Spends id row u a now b
call-Spends id (undispatched cmd_id now) b = cas_resolve-Spends id cmd_id error local now b.commands
call-Spends id (queried row o q now) b = query_Spends id row now b o q
call-Spends id (reported row o now) b = report_Spends id row now b o
call-Spends id (timed cmd_id now) b = (omega (arith, timed-le id cmd_id now b.commands), λ e. cc)
call-Spends id (resent cmd_id now) b = (omega (arith, resent-le id cmd_id now b.commands), λ e. cc)
