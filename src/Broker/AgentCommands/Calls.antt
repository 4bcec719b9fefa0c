-- ===== src/Broker/AgentCommands/Calls.antt =====
-- What the calls on the ledger do to its rows.
use quanquant.Base.{
  ℕ, ◌+◌, ◌≤◌, ◌≡◌, refl, Bool, true, false, ◌&&◌, ◌||◌, not, Option, none, some, [], ◌∷◌, String,
  arith, str_eq, str_eq_iff, str_eq_refl, ◌==◌, if◌then◌else◌, count_where, Bool-cases, inl, inr,
  ◌⊎◌,
}
use quanquant.Broker.Orders.{Order}
use quanquant.Broker.AgentCommands.{
  AgentCommand, Commands, CommandKind, place, cancel, update, CommandOutcome, ok, error, Via, ack,
  is_unresolved, cas_resolve, set_unknown, mark_transport_acked,
}
use quanquant.Broker.AgentCommands.Effects.{
  Books, UpCmdAck, is_explicit_reject, apply_place, apply_cancel, apply_update, apply_effects,
  apply_place_ack, apply_place_failure, apply_cancel_ack, apply_update_ack, ends_with, order_of_key,
  order_of_command, place_done, place_unclear, place_refused, cancel_done, cancel_refused,
  update_done, update_refused,
}

-- Whether an answer says how the command ended.
abbrev pub is_decisive : UpCmdAck → Bool
is_decisive a = a.ok || is_explicit_reject a.error_kind

abbrev pub outcome_of : UpCmdAck → CommandOutcome
outcome_of a = if a.ok then ok else error

-- What an answer writes to the rows: an ending, or that the outcome is unknown.
abbrev pub written : AgentCommand → UpCmdAck → ℕ → Commands → Bool × Commands
written c a now t =
    if is_decisive a
    then (
      not (cas_resolve c.cmd_id (outcome_of a) ack now t).0,
      (cas_resolve c.cmd_id (outcome_of a) ack now t).1,
    )
    else (false, set_unknown c.cmd_id t)

pub ends_with-written :
    (c : AgentCommand) (o : CommandOutcome) (v : Via) (now : ℕ) (f : Books → Books) (b : Books)
    → ((d : Books) → (f d).commands ≡ d.commands)
    → ((ends_with c o v now f b).0 ≡ not (cas_resolve c.cmd_id o v now b.commands).0)
      × ((ends_with c o v now f b).1.commands ≡ (cas_resolve c.cmd_id o v now b.commands).1)
ends_with-written c o v now f b h = elim (Bool-cases (cas_resolve c.cmd_id o v now b.commands).0) [
  | inl won ↦ (rw won refl, rw won (h _))
  | inr lost ↦ (rw lost refl, rw lost refl)
]

-- No effect writes the rows of the ledger.
place_done-commands :
    (c : AgentCommand) (a : UpCmdAck) (now : ℕ) (r : Option Order) (d : Books)
    → (place_done c a now r d).commands ≡ d.commands
unfolding apply_place_ack
place_done-commands c a now none d = refl
place_done-commands c a now (some o) d = refl

place_refused-commands :
    (c : AgentCommand) (now : ℕ) (r : Option Order) (d : Books)
    → (place_refused c now r d).commands ≡ d.commands
unfolding apply_place_failure
place_refused-commands c now none d = refl
place_refused-commands c now (some o) d = refl

place_unclear-commands :
    (now : ℕ) (r : Option Order) (d : Books) → (place_unclear now r d).commands ≡ d.commands
unfolding apply_place_failure
place_unclear-commands now none d = refl
place_unclear-commands now (some o) d = refl

cancel_done-commands :
    (now : ℕ) (r : Option Order) (d : Books) → (cancel_done now r d).commands ≡ d.commands
unfolding apply_cancel_ack
cancel_done-commands now none d = refl
cancel_done-commands now (some o) d = refl

pub update_done-commands :
    (c : AgentCommand) (now : ℕ) (r : Option Order) (d : Books)
    → (update_done c now r d).commands ≡ d.commands
unfolding apply_update_ack
update_done-commands c now none d = refl
update_done-commands c now (some o) d = refl

module _ (c : AgentCommand) (a : UpCmdAck) (now : ℕ) (b : Books) where
  apply_place-written :
      ((apply_place c a now b).0 ≡ (written c a now b.commands).0)
      × ((apply_place c a now b).1.commands ≡ (written c a now b.commands).1)
  unfolding apply_place
  apply_place-written = elim (Bool-cases a.ok) [
    | inl yes_ok ↦ rw yes_ok (
        ends_with-written c ok ack now (place_done c a now (order_of_key c b.ledger.orders)) b
          (place_done-commands c a now (order_of_key c b.ledger.orders)))
    | inr not_ok ↦ elim (Bool-cases (is_explicit_reject a.error_kind)) [
      | inl rejects ↦
          rw (not_ok, rejects)
            (ends_with-written c error ack now
              (place_refused c now (order_of_key c b.ledger.orders)) b
              (place_refused-commands c now (order_of_key c b.ledger.orders)))
      | inr unclear ↦
          rw (not_ok, unclear) (refl, place_unclear-commands now (order_of_key c b.ledger.orders) _)
    ]
  ]

  apply_cancel-written :
      ((apply_cancel c a now b).0 ≡ (written c a now b.commands).0)
      × ((apply_cancel c a now b).1.commands ≡ (written c a now b.commands).1)
  unfolding apply_cancel
  apply_cancel-written = elim (Bool-cases a.ok) [
    | inl yes_ok ↦ rw yes_ok (
        ends_with-written c ok ack now (cancel_done now (order_of_command c b.ledger.orders)) b
          (cancel_done-commands now (order_of_command c b.ledger.orders)))
    | inr not_ok ↦ elim (Bool-cases (is_explicit_reject a.error_kind)) [
      | inl rejects ↦
          rw (not_ok, rejects) (ends_with-written c error ack now (cancel_refused c) b (λ d. refl))
      | inr unclear ↦ rw (not_ok, unclear) (refl, refl)
    ]
  ]

  apply_update-written :
      ((apply_update c a now b).0 ≡ (written c a now b.commands).0)
      × ((apply_update c a now b).1.commands ≡ (written c a now b.commands).1)
  unfolding apply_update
  apply_update-written = elim (Bool-cases a.ok) [
    | inl yes_ok ↦ rw yes_ok (
        ends_with-written c ok ack now (update_done c now (order_of_command c b.ledger.orders)) b
          (update_done-commands c now (order_of_command c b.ledger.orders)))
    | inr not_ok ↦ elim (Bool-cases (is_explicit_reject a.error_kind)) [
      | inl rejects ↦
          rw (not_ok, rejects) (ends_with-written c error ack now (update_refused c) b (λ d. refl))
      | inr unclear ↦ rw (not_ok, unclear) (refl, refl)
    ]
  ]

-- What an answer writes to the ledger, by kind, and whether it lost the race.
pub apply_effects-written :
    (c : AgentCommand) (a : UpCmdAck) (now : ℕ) (b : Books)
    → ((apply_effects c a now b).0 ≡ (written c a now b.commands).0)
      × ((apply_effects c a now b).1.commands ≡ (written c a now b.commands).1)
unfolding apply_place apply_cancel apply_update
apply_effects-written c a now b = elim (kind_cases c.kind) [
  | inl is_place ↦ rw is_place (apply_place-written c a now b)
  | inr (inl is_cancel) ↦ rw is_cancel (apply_cancel-written c a now b)
  | inr (inr is_update) ↦ rw is_update (apply_update-written c a now b)
]
  where
    kind_cases : (k : CommandKind) → (k ≡ place) ⊎ ((k ≡ cancel) ⊎ (k ≡ update))
    kind_cases place = inl refl
    kind_cases cancel = inr (inl refl)
    kind_cases update = inr (inr refl)

-- How many rows of a command are not resolved.
abbrev pub open_rows : String → Commands → ℕ
open_rows id t = count_where (is_unresolved id) t

-- A step that spends the open row of a command if it ends it, and opens none.
abbrev pub Spends : String → Bool → Commands → Commands → Type 0
Spends id ended t t' =
    ((if ended then 1 else 0) + open_rows id t' ≤ open_rows id t)
    × (ended ≡ true → open_rows id t' ≡ 0)

no_more_open :
    (id cmd_id : String) (o : CommandOutcome) (v : Via) (now : ℕ) (t : Commands)
    → open_rows id (cas_resolve cmd_id o v now t).1 ≤ open_rows id t
unfolding cas_resolve
no_more_open id cmd_id o v now [] = omega arith
no_more_open id cmd_id o v now (c ∷ t) = ground (arith, no_more_open id cmd_id o v now t)

all_closed :
    (id : String) (o : CommandOutcome) (v : Via) (now : ℕ) (t : Commands)
    → open_rows id (cas_resolve id o v now t).1 ≡ 0
unfolding cas_resolve
all_closed id o v now [] = refl
all_closed id o v now (c ∷ t) = ground (arith, all_closed id o v now t)

pub cas_resolve-Spends :
    (id cmd_id : String) (o : CommandOutcome) (v : Via) (now : ℕ) (t : Commands)
    → Spends id
        (str_eq cmd_id id && (cas_resolve cmd_id o v now t).0)
        t
        (cas_resolve cmd_id o v now t).1
cas_resolve-Spends id cmd_id o v now t = elim (Bool-cases (str_eq cmd_id id)) [
  | inr other ↦ rw other (omega (arith, no_more_open id cmd_id o v now t), λ e. cc)
  | inl same ↦
      let closed = all_closed id o v now t in
      let won : (cas_resolve id o v now t).0 ≡ (open_rows id t == 1) = unfold cas_resolve in refl in
      rw ((str_eq_iff cmd_id id).0 same, str_eq_refl) (rw (won, closed) (ground arith), λ e. closed)
]

set_unknown-le :
    (id cmd_id : String) (t : Commands) → open_rows id (set_unknown cmd_id t) ≤ open_rows id t
unfolding set_unknown
set_unknown-le id cmd_id [] = omega arith
set_unknown-le id cmd_id (c ∷ t) = ground (arith, set_unknown-le id cmd_id t)

pub mark_transport_acked-le :
    (id cmd_id : String) (user_id now : ℕ) (t : Commands)
    → open_rows id (mark_transport_acked cmd_id user_id now t).1 ≤ open_rows id t
unfolding mark_transport_acked
mark_transport_acked-le id cmd_id user_id now [] = omega arith
mark_transport_acked-le id cmd_id user_id now (c ∷ t) =
    ground (arith, mark_transport_acked-le id cmd_id user_id now t)

pub written-Spends :
    (id : String) (c : AgentCommand) (a : UpCmdAck) (now : ℕ) (t : Commands)
    → Spends id
        (str_eq c.cmd_id id && (is_decisive a && not (written c a now t).0))
        t
        (written c a now t).1
written-Spends id c a now t = elim (Bool-cases (is_decisive a)) [
  | inl decisive ↦
      rw decisive (ground (arith, cas_resolve-Spends id c.cmd_id (outcome_of a) ack now t))
  | inr unclear ↦ rw unclear (ground (arith, set_unknown-le id c.cmd_id t))
]
