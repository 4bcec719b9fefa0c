-- ===== src/Broker/Watchdog/Cancels.antt =====
-- A pass of the watchdog of a user in agent mode, over the cancels that nothing has ended.
use quanquant.Base.{
  ℕ, String, ◌≡◌, refl, ◌∙◌, ap, Bool, true, false, ◌||◌, some, [], ◌∷◌, arith, inl, inr, str_eq,
  str_eq_iff, find?, select, Bool-cases,
}
use quanquant.Broker.Orders.{Order, Orders, is_null}
use quanquant.Broker.AgentCommands.{
  AgentCommand, Commands, unknown, report, get_command, by_cmd_id, is_unset, cas_resolve,
  insert_by_age, by_age, is_open_cancel, list_unresolved_cancels, list_unresolved_unknown_updates,
}
use quanquant.Broker.AgentCommands.Effects.{Books, order_of_command}
use quanquant.Broker.AgentCommands.Answers.{
  is_final, resolve_one_unresolved_cancel, resolve_cancel_of, resolve_unresolved_cancel_via_report,
}
use quanquant.Broker.AgentCommands.Calls.{open_rows}
use quanquant.Broker.Watchdog.{
  Gateway, resolve_cancel_cmd, resolve_cancels, reconcile_unknown_quota_agent,
}
use quanquant.Broker.Watchdog.Updates.{updates_no_more}
use quanquant.Broker.Watchdog.CancelEnds.{
  named_row, cancel_ends, cas_closes, cancels_no_more, find-cas_other, open_rows-cas_other,
}

-- A row of the list has the id.
abbrev named : String → Commands → Bool
named id [] = false
named id (c ∷ cs) = by_cmd_id id c || named id cs

named-insert :
    (id : String) (c : AgentCommand) (t : Commands)
    → named id (insert_by_age c t) ≡ (by_cmd_id id c || named id t)
named-insert id c [] = refl
named-insert id c (d ∷ t) = ground (arith, named-insert id c t)

named-by_age : (id : String) (t : Commands) → named id (by_age t) ≡ named id t
named-by_age id [] = refl
named-by_age id (c ∷ t) = rw (named-insert id c (by_age t), named-by_age id t) refl

named-select :
    (fits : AgentCommand → Bool) (id : String) (t : Commands) (c : AgentCommand)
    → find? (by_cmd_id id) t ≡ some c
    → fits c ≡ true
    → named id (select fits t) ≡ true
named-select fits id [] c h is = absurd (cc)
named-select fits id (d ∷ t) c h is = elim (Bool-cases (by_cmd_id id d)) [
  | inl here ↦
      let same : d ≡ c = ground arith in let there : fits d ≡ true = cc in rw (there, here) refl
  | inr other ↦
      let later = named-select fits id t c (ground arith) is in
      elim (Bool-cases (fits d)) [
        | inl listed ↦ rw (listed, other) later
        | inr left_out ↦ rw left_out later
      ]
]

-- A cancel with the number of its order, of which the order has ended.
module _ (id : String) (c : AgentCommand) (o : Order) (orders : Orders)
    (pending : is_unset c.resolved_at ≡ true) (numbered : is_null c.ordno ≡ false)
    (known : order_of_command c orders ≡ some o) (over : is_final o.status ≡ true) where
  abbrev Waits : Books → Type 0
  Waits b =
      (get_command id b.commands ≡ some c)
      × (open_rows id b.commands ≡ 1)
      × (b.ledger.orders ≡ orders)

  cancel_done :
      (now : ℕ) (b : Books) → Waits b → open_rows id (resolve_cancel_cmd now id b).1.commands ≡ 0
  unfolding resolve_cancel_cmd resolve_one_unresolved_cancel resolve_unresolved_cancel_via_report
  cancel_done now b (found, one, same) =
      let id_of : c.cmd_id ≡ id = named_row id b.commands c found in
      let won : (cas_resolve id unknown report now b.commands).0 ≡ true =
        unfold cas_resolve in rw one refl in
      let there : order_of_command c b.ledger.orders ≡ some o =
        ap (order_of_command c) same ∙ known in
      rw
        (
          found, pending, numbered, resolve_cancel_of, there, over, id_of, won,
          resolve_one_unresolved_cancel, resolve_unresolved_cancel_via_report,
        )
        (cas_closes id now b.commands)

  resolve_cancel_cmd-Waits :
      (now : ℕ) (other : String) (b : Books)
      → str_eq other id ≡ false
      → Waits b
      → Waits (resolve_cancel_cmd now other b).1
  unfolding get_command
  resolve_cancel_cmd-Waits now other b apart (found, one, same) = elim (cancel_ends other now b) [
    | inl kept ↦ rw kept (found, one, same)
    | inr ended ↦
        let row = find-cas_other id other apart unknown report now b.commands in
        let count = open_rows-cas_other id other apart unknown report now b.commands in
        rw ended (row ∙ found, count ∙ one, same)
  ]

  cancels_done :
      (now : ℕ) (cs : Commands) (b : Books)
      → named id cs ≡ true
      → Waits b
      → open_rows id (resolve_cancels now cs b).1.commands ≡ 0
  unfolding resolve_cancels
  cancels_done now [] b none_named w = absurd (cc)
  cancels_done now (x ∷ cs) b is_named w = elim (Bool-cases (str_eq x.cmd_id id)) [
    | inl here ↦
        let b' = (resolve_cancel_cmd now x.cmd_id b).1 in
        let closed : open_rows id b'.commands ≡ 0 =
          rw ((str_eq_iff x.cmd_id id).0 here) (cancel_done now b w) in
        omega (arith, closed, cancels_no_more id now cs b')
    | inr other ↦
        cancels_done now cs (resolve_cancel_cmd now x.cmd_id b).1 (ground arith)
          (resolve_cancel_cmd-Waits now x.cmd_id b other w)
  ]

-- A cancel of the user that is written in one row only, that nothing has ended, and that names an
-- order which has ended is ended by a pass of the watchdog, whatever the gateway answers: the agent
-- need not be there.
pub reconcile_unknown_quota_agent-cancel :
    (gateway : String → Gateway) (user_id now : ℕ) (b : Books) (id : String) (c : AgentCommand)
    (o : Order)
    → get_command id b.commands ≡ some c
    → open_rows id b.commands ≡ 1
    → is_open_cancel user_id c ≡ true
    → is_null c.ordno ≡ false
    → order_of_command c b.ledger.orders ≡ some o
    → is_final o.status ≡ true
    → open_rows id (reconcile_unknown_quota_agent gateway user_id now b).1.commands ≡ 0
unfolding reconcile_unknown_quota_agent list_unresolved_cancels get_command
reconcile_unknown_quota_agent-cancel gateway user_id now b id c o found one is numbered known over =
    let cancels = by_age (select (is_open_cancel user_id) b.commands) in
    let b' = (resolve_cancels now cancels b).1 in
    let is_named : named id cancels ≡ true =
      named-by_age id (select (is_open_cancel user_id) b.commands)
      ∙ named-select (is_open_cancel user_id) id b.commands c found is in
    let closed =
      cancels_done id c o b.ledger.orders (ground arith) numbered known over now cancels b is_named
        (found, one, refl) in
    omega (
      arith,
      closed,
      updates_no_more gateway id now (list_unresolved_unknown_updates user_id b.commands) b',
    )
