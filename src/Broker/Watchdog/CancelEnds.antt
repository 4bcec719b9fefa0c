-- ===== src/Broker/Watchdog/CancelEnds.antt =====
-- What a pass of the watchdog does at one cancel, and what it leaves of the other commands.
use quanquant.Base.{
  ℕ, ◌≤◌, String, ◌≡◌, refl, true, false, ◌||◌, not, ◌⊎◌, some, [], ◌∷◌, arith, inl, inr, str_eq,
  str_eq_iff, find?, Bool-cases, Option-cases,
}
use quanquant.Broker.Orders.{is_null}
use quanquant.Broker.AgentCommands.{
  AgentCommand, Commands, unknown, report, CommandOutcome, Via, get_command, by_cmd_id, is_unset,
  is_unresolved, cas_resolve,
}
use quanquant.Broker.AgentCommands.Effects.{Books, order_of_command}
use quanquant.Broker.AgentCommands.Answers.{
  is_final, resolve_one_unresolved_cancel, resolve_cancel_of, resolve_unresolved_cancel_via_report,
}
use quanquant.Broker.AgentCommands.Calls.{open_rows, cas_resolve-Spends}
use quanquant.Broker.Watchdog.{resolve_cancel_cmd, resolve_cancels}

get_command-id :
    (id : String) (t : Commands) (c : AgentCommand)
    → find? (by_cmd_id id) t ≡ some c
    → c.cmd_id ≡ id
get_command-id id [] c h = absurd (cc)
get_command-id id (d ∷ t) c h = ground (arith, get_command-id id t c, str_eq_iff d.cmd_id id)

pub named_row :
    (id : String) (t : Commands) (c : AgentCommand) → get_command id t ≡ some c → c.cmd_id ≡ id
unfolding get_command
named_row = get_command-id

-- What the ending of another command leaves of one.
module _ (id other : String) (apart : str_eq other id ≡ false) (o : CommandOutcome) (v : Via)
    (now : ℕ) where
  end_row-other : (c : AgentCommand) → is_unresolved other c ≡ true → by_cmd_id id c ≡ false
  end_row-other c h =
      ground (arith, str_eq_iff c.cmd_id other, str_eq_iff c.cmd_id id, str_eq_iff other id)

  pub find-cas_other :
      (t : Commands) → find? (by_cmd_id id) (cas_resolve other o v now t).1 ≡ find? (by_cmd_id id) t
  unfolding cas_resolve
  find-cas_other [] = refl
  find-cas_other (c ∷ t) = elim (Bool-cases (is_unresolved other c)) [
    | inl ends_here ↦ rw (ends_here, end_row-other c ends_here) (find-cas_other t)
    | inr kept ↦ rw (kept, find-cas_other t) refl
  ]

  pub open_rows-cas_other :
      (t : Commands) → open_rows id (cas_resolve other o v now t).1 ≡ open_rows id t
  unfolding cas_resolve
  open_rows-cas_other [] = refl
  open_rows-cas_other (c ∷ t) = elim (Bool-cases (is_unresolved other c)) [
    | inl ends_here ↦
        rw (ends_here, end_row-other c ends_here) (omega (arith, open_rows-cas_other t))
    | inr kept ↦ rw (kept, open_rows-cas_other t) refl
  ]

-- A cancel that a pass goes through: nothing happens to the tables, or its row is ended.
pub cancel_ends :
    (cmd_id : String) (now : ℕ) (b : Books)
    → ((resolve_cancel_cmd now cmd_id b).1 ≡ b)
      ⊎ ((resolve_cancel_cmd now cmd_id b).1
          ≡ record b { commands = (cas_resolve cmd_id unknown report now b.commands).1 })
unfolding resolve_cancel_cmd resolve_one_unresolved_cancel resolve_unresolved_cancel_via_report
cancel_ends cmd_id now b = elim (Option-cases (get_command cmd_id b.commands)) [
  | inl missing ↦ rw (missing, resolve_one_unresolved_cancel) (inl refl)
  | inr (c, found) ↦
      let id_of : c.cmd_id ≡ cmd_id = named_row cmd_id b.commands c found in
      elim (Bool-cases (not (is_unset c.resolved_at) || is_null c.ordno)) [
        | inl skipped ↦ rw (found, skipped, resolve_one_unresolved_cancel) (inl refl)
        | inr taken ↦ elim (Option-cases (order_of_command c b.ledger.orders)) [
          | inl no_order ↦
              rw (found, taken, no_order, resolve_one_unresolved_cancel, resolve_cancel_of)
                (inl refl)
          | inr (o, known) ↦ elim (Bool-cases (is_final o.status)) [
            | inr working ↦
                rw
                  (
                    found, taken, known, working, resolve_one_unresolved_cancel, resolve_cancel_of,
                    resolve_unresolved_cancel_via_report,
                  )
                  (inl refl)
            | inl over ↦ elim (Bool-cases (cas_resolve c.cmd_id unknown report now b.commands).0) [
              | inl won ↦
                  rw
                    (
                      found, taken, known, over, won, id_of, resolve_one_unresolved_cancel,
                      resolve_cancel_of, resolve_unresolved_cancel_via_report,
                    )
                    (inr refl)
              | inr lost ↦
                  rw
                    (
                      found, taken, known, over, lost, resolve_one_unresolved_cancel,
                      resolve_cancel_of, resolve_unresolved_cancel_via_report,
                    )
                    (inl refl)
            ]
          ]
        ]
      ]
]

pub cas_closes :
    (id : String) (now : ℕ) (t : Commands)
    → open_rows id (cas_resolve id unknown report now t).1 ≡ 0
unfolding cas_resolve
cas_closes id now [] = refl
cas_closes id now (c ∷ t) = ground (arith, cas_closes id now t)

rows_no_more :
    (id cmd_id : String) (now : ℕ) (b : Books)
    → open_rows id (cas_resolve cmd_id unknown report now b.commands).1 ≤ open_rows id b.commands
rows_no_more id cmd_id now b =
    omega (arith, (cas_resolve-Spends id cmd_id unknown report now b.commands).0)

cancel_no_more :
    (id cmd_id : String) (now : ℕ) (b : Books)
    → open_rows id (resolve_cancel_cmd now cmd_id b).1.commands ≤ open_rows id b.commands
cancel_no_more id cmd_id now b = elim (cancel_ends cmd_id now b) [
  | inl same ↦ rw same (omega arith)
  | inr ended ↦ rw ended (rows_no_more id cmd_id now b)
]

pub cancels_no_more :
    (id : String) (now : ℕ) (cs : Commands) (b : Books)
    → open_rows id (resolve_cancels now cs b).1.commands ≤ open_rows id b.commands
unfolding resolve_cancels
cancels_no_more id now [] b = omega arith
cancels_no_more id now (c ∷ cs) b = omega (
  arith,
  cancel_no_more id c.cmd_id now b,
  cancels_no_more id now cs (resolve_cancel_cmd now c.cmd_id b).1,
)
