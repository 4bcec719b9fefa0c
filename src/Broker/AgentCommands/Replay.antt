-- ===== src/Broker/AgentCommands/Replay.antt =====
-- An answer that is delivered again.
use quanquant.Base.{
  ℕ, ◌≡◌, refl, ap, subst, ◌∙◌, true, false, none, some, [], ◌∷◌, String, arith, str_eq_iff, ◌==◌,
  count_where, Bool-cases, Option-cases, inl, inr,
}
use quanquant.Broker.AgentCommands.{
  AgentCommand, Commands, get_command, is_unacked, is_unset, mark_transport_acked, cas_resolve,
  set_unknown, CommandOutcome, Via, ack,
}
use quanquant.Broker.AgentCommands.Effects.{Books, with_commands, UpCmdAck}
use quanquant.Broker.AgentCommands.Answers.{apply_ack_on, apply_command_ack}
use quanquant.Broker.AgentCommands.Calls.{is_decisive, outcome_of, written, apply_effects-written}

get_command-id :
    (id : String) (t : Commands) (c : AgentCommand) → get_command id t ≡ some c → c.cmd_id ≡ id
unfolding get_command
get_command-id id [] c e = cc
get_command-id id (d ∷ t) c e = ground (arith, get_command-id id t c, str_eq_iff d.cmd_id id)

-- The rows of a command and a user that no answer has reached.
abbrev unacked : String → ℕ → Commands → ℕ
unacked id u t = count_where (is_unacked id u) t

none_left :
    (id : String) (u now : ℕ) (t : Commands) → unacked id u (mark_transport_acked id u now t).1 ≡ 0
unfolding mark_transport_acked
none_left id u now [] = refl
none_left id u now (c ∷ t) = ground (arith, none_left id u now t)

none_to_mark :
    (id : String) (u now : ℕ) (t : Commands)
    → unacked id u t ≡ 0
    → (mark_transport_acked id u now t).1 ≡ t
unfolding mark_transport_acked
none_to_mark id u now [] h = refl
none_to_mark id u now (c ∷ t) h = elim (Bool-cases (is_unacked id u c)) [
  | inl hit ↦ absurd (omega (arith, rw hit at h))
  | inr miss ↦
      let rest : unacked id u t ≡ 0 = omega (arith, rw miss at h) in
      rw miss (ap (λ r. c ∷ r) (none_to_mark id u now t rest))
]

cas-unacked :
    (id cmd_id : String) (u : ℕ) (o : CommandOutcome) (v : Via) (now : ℕ) (t : Commands)
    → unacked id u (cas_resolve cmd_id o v now t).1 ≡ unacked id u t
unfolding cas_resolve
cas-unacked id cmd_id u o v now [] = refl
cas-unacked id cmd_id u o v now (c ∷ t) = ground (arith, cas-unacked id cmd_id u o v now t)

unknown-unacked :
    (id cmd_id : String) (u : ℕ) (t : Commands)
    → unacked id u (set_unknown cmd_id t) ≡ unacked id u t
unfolding set_unknown
unknown-unacked id cmd_id u [] = refl
unknown-unacked id cmd_id u (c ∷ t) = ground (arith, unknown-unacked id cmd_id u t)

written-unacked :
    (id : String) (u : ℕ) (c : AgentCommand) (a : UpCmdAck) (now : ℕ) (t : Commands)
    → unacked id u (written c a now t).1 ≡ unacked id u t
written-unacked id u c a now t = elim (Bool-cases (is_decisive a)) [
  | inl decisive ↦ rw decisive (cas-unacked id c.cmd_id u (outcome_of a) ack now t)
  | inr unclear ↦ rw unclear (unknown-unacked id c.cmd_id u t)
]

-- After an answer in the name of the row's user no row of the command waits for one.
answered-unacked :
    (row : AgentCommand) (u : ℕ) (a : UpCmdAck) (now : ℕ) (b : Books)
    → row.user_id == u ≡ true
    → unacked row.cmd_id u (apply_ack_on row u a now b).1.commands ≡ 0
unfolding apply_ack_on
answered-unacked row u a now b mine =
    let marked = with_commands (mark_transport_acked row.cmd_id u now b.commands).1 b in
    let cleared = none_left row.cmd_id u now b.commands in
    let (lost, rows) = apply_effects-written row a now marked in
    elim (Bool-cases (mark_transport_acked row.cmd_id u now b.commands).0) [
      | inr again ↦ rw (mine, again) cleared
      | inl first ↦ elim (Bool-cases (is_unset row.resolved_at)) [
        | inr over ↦ rw (mine, first, over) cleared
        | inl unresolved ↦
            rw (mine, first, unresolved, rows)
              (written-unacked row.cmd_id u row a now marked.commands ∙ cleared)
      ]
    ]

-- An answer changes nothing where the user is another one or no row waits.
repeated-books :
    (row : AgentCommand) (u : ℕ) (a : UpCmdAck) (now : ℕ) (b : Books)
    → unacked row.cmd_id u b.commands ≡ 0
    → (apply_ack_on row u a now b).1 ≡ b
unfolding apply_ack_on
repeated-books row u a now b h =
    let same = none_to_mark row.cmd_id u now b.commands h in
    let lost : (mark_transport_acked row.cmd_id u now b.commands).0 ≡ false =
      unfold mark_transport_acked in ground (arith, h) in
    elim (Bool-cases (row.user_id == u)) [
      | inr other ↦ rw other refl
      | inl mine ↦ rw (mine, lost, same) refl
    ]

module _ (id : String) (u : ℕ) (a : UpCmdAck) (now : ℕ) (b : Books) where
  answer_of :
      (row : AgentCommand)
      → get_command id b.commands ≡ some row
      → (apply_command_ack id u a now b).1 ≡ (apply_ack_on row u a now b).1
  unfolding apply_command_ack
  answer_of row e = rw (e, apply_command_ack) refl

  missing_keeps : get_command id b.commands ≡ none → (apply_command_ack id u a now b).1 ≡ b
  unfolding apply_command_ack
  missing_keeps e = rw (e, apply_command_ack) refl

  other_user_keeps :
      (row : AgentCommand)
      → get_command id b.commands ≡ some row
      → row.user_id == u ≡ false
      → (apply_command_ack id u a now b).1 ≡ b
  unfolding apply_ack_on
  other_user_keeps row e other = answer_of row e ∙ rw other refl

  answered_keeps : unacked id u b.commands ≡ 0 → (apply_command_ack id u a now b).1 ≡ b
  answered_keeps h = elim (Option-cases (get_command id b.commands)) [
    | inl missing ↦ missing_keeps missing
    | inr (row, e) ↦
        let same = get_command-id id b.commands row e in
        answer_of row e ∙ repeated-books row u a now b (rw same h)
  ]

-- A second answer to a command, with any content and at any time, leaves all tables as the first one
-- left them, whatever the first one found.
apply_command_ack_again :
    (id : String) (u : ℕ) (a a' : UpCmdAck) (now now' : ℕ) (b : Books)
    → (apply_command_ack id u a' now' (apply_command_ack id u a now b).1).1
      ≡ (apply_command_ack id u a now b).1
apply_command_ack_again id u a a' now now' b = elim (Option-cases (get_command id b.commands)) [
  | inl missing ↦ rw (missing_keeps id u a now b missing) (missing_keeps id u a' now' b missing)
  | inr (row, e) ↦ elim (Bool-cases (row.user_id == u)) [
    | inr other ↦
        rw (other_user_keeps id u a now b row e other) (other_user_keeps id u a' now' b row e other)
    | inl mine ↦
        let same = get_command-id id b.commands row e in
        let none_left_over =
          subst (λ i. unacked i u (apply_ack_on row u a now b).1.commands ≡ 0) same
            (answered-unacked row u a now b mine) in
        rw (answer_of id u a now b row e)
          (answered_keeps id u a' now' (apply_ack_on row u a now b).1 none_left_over)
  ]
]
