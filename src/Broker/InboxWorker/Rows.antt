-- ===== src/Broker/InboxWorker/Rows.antt =====
-- What the settlement of commands after the end of an order leaves alone.
use quanquant.Base.{
  ℕ, ◌≡◌, refl, ◌∙◌, ◌&&◌, ◌||◌, not, Option, none, some, [], ◌∷◌, String, Bool-cases, Option-cases,
  inl, inr, ◌==◌,
}
use quanquant.Broker.Orders.{Order, is_null}
use quanquant.Broker.Inbox.{RawInbox}
use quanquant.Broker.AgentCommands.{
  AgentCommand, Commands, CommandOutcome, ok, error, unknown, Via, query_qty, report, get_command,
  is_unset, cas_resolve, list_unresolved_unknown_updates_for_ordno,
  list_unresolved_cancels_for_ordno,
}
use quanquant.Broker.AgentCommands.Effects.{
  Books, with_commands, ends_with, update_done, update_refused, update_kept, apply_update_ack,
  order_of_command,
}
use quanquant.Broker.AgentCommands.Answers.{
  opt_is, is_final, resolve_update_via_query_qty, resolve_unresolved_cancel_via_report,
  resolve_update_of, resolve_cancel_of, resolve_one_unresolved_update,
  resolve_one_unresolved_cancel,
}
use quanquant.Broker.InboxWorker.{
  settle_updates, settle_cancels, settle_after_terminal, settle_if_agent,
}

-- The positions and the inbox are as they were.
abbrev pub Keeps : Books → Books → Type 0
Keeps b b' = (b'.ledger.positions ≡ b.ledger.positions) × (b'.raw ≡ b.raw)

trans_Keeps : (a b c : Books) → Keeps a b → Keeps b c → Keeps a c
trans_Keeps a b c (p, r) (p', r') = (p' ∙ p, r' ∙ r)

ends_with-Keeps :
    (c : AgentCommand) (o : CommandOutcome) (v : Via) (now : ℕ) (f : Books → Books) (b : Books)
    → ((d : Books) → Keeps d (f d))
    → Keeps b (ends_with c o v now f b).1
ends_with-Keeps c o v now f b h = elim (Bool-cases (cas_resolve c.cmd_id o v now b.commands).0) [
  | inl won ↦
      rw won
        (let (p, r) = h (with_commands (cas_resolve c.cmd_id o v now b.commands).1 b) in (p, r))
  | inr lost ↦ rw lost (refl, refl)
]

update_done-Keeps :
    (c : AgentCommand) (now : ℕ) (o : Order) (d : Books) → Keeps d (update_done c now (some o) d)
unfolding apply_update_ack
update_done-Keeps c now o d = (refl, refl)

query-Keeps :
    (c : AgentCommand) (o : Order) (q : Option ℕ) (now : ℕ) (b : Books)
    → Keeps b (resolve_update_via_query_qty c o q now b).1
unfolding resolve_update_via_query_qty
query-Keeps c o q now b =
    let determinable = not (c.payload.qty == o.qty) in
    elim (Bool-cases (determinable && opt_is q c.payload.qty)) [
      | inl reached ↦ rw reached (
          ends_with-Keeps c ok query_qty now (update_done c now (some o)) b
            (update_done-Keeps c now o))
      | inr not_reached ↦ elim (Bool-cases (determinable && opt_is q o.qty)) [
        | inl kept ↦
            rw (not_reached, kept)
              (ends_with-Keeps c error query_qty now (update_refused c) b (λ d. (refl, refl)))
        | inr unclear ↦ elim (Bool-cases (is_final o.status)) [
          | inl over ↦
              rw (not_reached, unclear, over)
                (ends_with-Keeps c unknown report now (update_kept c) b (λ d. (refl, refl)))
          | inr working ↦ rw (not_reached, unclear, working) (refl, refl)
        ]
      ]
    ]

report-Keeps :
    (c : AgentCommand) (o : Order) (now : ℕ) (b : Books)
    → Keeps b (resolve_unresolved_cancel_via_report c o now b).1
unfolding resolve_unresolved_cancel_via_report
report-Keeps c o now b = elim (Bool-cases (is_final o.status)) [
  | inr working ↦ rw working (refl, refl)
  | inl over ↦ rw over (ends_with-Keeps c unknown report now (λ d. d) b (λ d. (refl, refl)))
]

update-Keeps :
    (id : String) (q : Option ℕ) (now : ℕ) (b : Books)
    → Keeps b (resolve_one_unresolved_update id q now b).1
unfolding resolve_one_unresolved_update
update-Keeps id q now b = elim (Option-cases (get_command id b.commands)) [
  | inl e ↦ rw (e, resolve_one_unresolved_update) (refl, refl)
  | inr (c, e) ↦ elim (Bool-cases (is_unset c.resolved_at)) [
    | inr over ↦ rw (e, resolve_one_unresolved_update, over) (refl, refl)
    | inl still ↦ elim (Option-cases (order_of_command c b.ledger.orders)) [
      | inl no_order ↦
          rw (e, resolve_one_unresolved_update, still, resolve_update_of, no_order) (refl, refl)
      | inr (o, found) ↦
          rw (e, resolve_one_unresolved_update, still, resolve_update_of, found)
            (query-Keeps c o q now b)
    ]
  ]
]

cancel-Keeps :
    (id : String) (now : ℕ) (b : Books) → Keeps b (resolve_one_unresolved_cancel id now b).1
unfolding resolve_one_unresolved_cancel
cancel-Keeps id now b = elim (Option-cases (get_command id b.commands)) [
  | inl e ↦ rw (e, resolve_one_unresolved_cancel) (refl, refl)
  | inr (c, e) ↦ elim (Bool-cases (not (is_unset c.resolved_at) || is_null c.ordno)) [
    | inl skipped ↦ rw (e, resolve_one_unresolved_cancel, skipped) (refl, refl)
    | inr still ↦ elim (Option-cases (order_of_command c b.ledger.orders)) [
      | inl no_order ↦
          rw (e, resolve_one_unresolved_cancel, still, resolve_cancel_of, no_order) (refl, refl)
      | inr (o, found) ↦
          rw (e, resolve_one_unresolved_cancel, still, resolve_cancel_of, found)
            (report-Keeps c o now b)
    ]
  ]
]

updates-Keeps : (cs : Commands) (now : ℕ) (b : Books) → Keeps b (settle_updates cs now b)
updates-Keeps [] now b = (refl, refl)
updates-Keeps (c ∷ cs) now b =
    let b' = (resolve_one_unresolved_update c.cmd_id none now b).1 in
    trans_Keeps b b' (settle_updates cs now b') (update-Keeps c.cmd_id none now b)
      (updates-Keeps cs now b')

cancels-Keeps : (cs : Commands) (now : ℕ) (b : Books) → Keeps b (settle_cancels cs now b)
cancels-Keeps [] now b = (refl, refl)
cancels-Keeps (c ∷ cs) now b =
    let b' = (resolve_one_unresolved_cancel c.cmd_id now b).1 in
    trans_Keeps b b' (settle_cancels cs now b') (cancel-Keeps c.cmd_id now b)
      (cancels-Keeps cs now b')

pub settle_after_terminal-Keeps :
    (o : Order) (now : ℕ) (b : Books) → Keeps b (settle_after_terminal o now b)
unfolding settle_after_terminal
settle_after_terminal-Keeps o now b = elim (Option-cases o.ordno) [
  | inl e ↦ rw e (refl, refl)
  | inr (n, e) ↦ elim (Bool-cases (is_final o.status)) [
    | inr working ↦ rw (e, working) (refl, refl)
    | inl over ↦
        let updates = list_unresolved_unknown_updates_for_ordno o.user_id n b.commands in
        let b' = settle_updates updates now b in
        let cancels = list_unresolved_cancels_for_ordno o.user_id n b'.commands in
        rw (e, over)
          (trans_Keeps b b' (settle_cancels cancels now b') (updates-Keeps updates now b)
            (cancels-Keeps cancels now b'))
  ]
]

pub settle_if_agent-Keeps :
    (row : RawInbox) (o : Order) (now : ℕ) (b : Books) → Keeps b (settle_if_agent row o now b)
settle_if_agent-Keeps row o now b = elim (Option-cases row.user_id) [
  | inl e ↦ rw e (refl, refl)
  | inr (u, e) ↦ rw e (settle_after_terminal-Keeps o now b)
]
