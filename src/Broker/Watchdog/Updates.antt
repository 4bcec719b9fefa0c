-- ===== src/Broker/Watchdog/Updates.antt =====
-- The updates in a pass of the watchdog of a user in agent mode: the rows that stay open.
use quanquant.Base.{
  ℕ, ◌≤◌, String, false, Option, none, [], ◌∷◌, arith, inl, inr, Bool-cases, Option-cases,
}
use quanquant.Broker.AgentCommands.{Commands, get_command, is_unset}
use quanquant.Broker.AgentCommands.Effects.{Books, order_of_command}
use quanquant.Broker.AgentCommands.Answers.{resolve_one_unresolved_update, resolve_update_of}
use quanquant.Broker.AgentCommands.Calls.{open_rows}
use quanquant.Broker.AgentCommands.Final.{queried, call, call-Spends}
use quanquant.Broker.Watchdog.{
  Gateway, not_ready, unavailable, told, committed, can_ask, told_or, resolve_update_cmd,
  resolve_updates,
}

-- A call of a session adds no open row of a command.
update_no_more :
    (id cmd_id : String) (q : Option ℕ) (now : ℕ) (b : Books)
    → open_rows id (resolve_one_unresolved_update cmd_id q now b).1.commands
      ≤ open_rows id b.commands
unfolding resolve_one_unresolved_update call
update_no_more id cmd_id q now b = elim (Option-cases (get_command cmd_id b.commands)) [
  | inl missing ↦ rw (missing, resolve_one_unresolved_update) (omega arith)
  | inr (c, found) ↦ elim (Bool-cases (is_unset c.resolved_at)) [
    | inr over ↦ rw (found, over, resolve_one_unresolved_update) (omega arith)
    | inl pending ↦ elim (Option-cases (order_of_command c b.ledger.orders)) [
      | inl unknown_order ↦
          rw (found, pending, unknown_order, resolve_one_unresolved_update, resolve_update_of)
            (omega arith)
      | inr (o, known) ↦
          let spent = (call-Spends id (queried c o q now) b).0 in
          let fewer : open_rows id (call (queried c o q now) b).commands ≤ open_rows id b.commands =
            omega (arith, spent) in
          rw (found, pending, known, resolve_one_unresolved_update, resolve_update_of) fewer
    ]
  ]
]

told_no_more :
    (id cmd_id : String) (now : ℕ) (b : Books) (g : Gateway)
    → open_rows id
        (told_or g
          (false, b)
          (λ q. committed (resolve_one_unresolved_update cmd_id q now b) b)).1.commands
      ≤ open_rows id b.commands
told_no_more id cmd_id now b not_ready = omega arith
told_no_more id cmd_id now b unavailable = omega arith
told_no_more id cmd_id now b (told q) =
    elim (Bool-cases (resolve_one_unresolved_update cmd_id q now b).0) [
      | inl ended ↦ rw ended (update_no_more id cmd_id q now b)
      | inr still ↦ rw still (omega arith)
    ]

update_cmd_no_more :
    (gateway : String → Gateway) (id cmd_id : String) (now : ℕ) (b : Books)
    → open_rows id (resolve_update_cmd gateway now cmd_id b).1.commands ≤ open_rows id b.commands
unfolding resolve_update_cmd
update_cmd_no_more gateway id cmd_id now b =
    elim (Bool-cases (resolve_one_unresolved_update cmd_id none now b).0) [
      | inl ended ↦ rw ended (update_no_more id cmd_id none now b)
      | inr still ↦ elim (Bool-cases (can_ask (get_command cmd_id b.commands))) [
        | inr mute ↦ rw (still, mute) (omega arith)
        | inl asks ↦ rw (still, asks) (told_no_more id cmd_id now b (gateway cmd_id))
      ]
    ]

pub updates_no_more :
    (gateway : String → Gateway) (id : String) (now : ℕ) (cs : Commands) (b : Books)
    → open_rows id (resolve_updates gateway now cs b).1.commands ≤ open_rows id b.commands
unfolding resolve_updates
updates_no_more gateway id now [] b = omega arith
updates_no_more gateway id now (c ∷ cs) b = omega (
  arith,
  update_cmd_no_more gateway id c.cmd_id now b,
  updates_no_more gateway id now cs (resolve_update_cmd gateway now c.cmd_id b).1,
)
