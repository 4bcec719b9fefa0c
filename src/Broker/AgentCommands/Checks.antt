-- ===== src/Broker/AgentCommands/Checks.antt =====
-- The constraints that the table of the commands declares (`AgentCommand.__table_args__` of
-- quanquant/db/models.py) and its primary key, and what a write does to the rows that break them.
use quanquant.Base.{
  ℕ, ◌+◌, ◌≤◌, ◌≡◌, Bool, true, false, ◌&&◌, ◌||◌, not, Option, none, some, [], ◌∷◌, String, arith,
  ◌==◌, if◌then◌else◌, count_where,
}
use quanquant.Broker.AgentCommands.{
  AgentCommand, Commands, CommandOutcome, Via, ack, is_unset, by_cmd_id, is_unacked, cas_resolve,
  set_unknown, mark_transport_acked, mark_timeout_observed, mark_resent,
}

abbrev pub is_ack : Via → Bool
is_ack ack = true
is_ack _ = false

abbrev via_acked : Option Via → Bool
via_acked none = false
via_acked (some v) = is_ack v

abbrev has_via : Option Via → Bool
has_via none = false
has_via (some _) = true

-- `ck_agent_commands_resolved_requires_via` and `ck_agent_commands_ack_requires_transport_ack`
unfoldable pub satisfies_checks : AgentCommand → Bool
satisfies_checks c =
    (is_unset c.resolved_at || has_via c.resolved_via)
    && (not (via_acked c.resolved_via) || not (is_unset c.transport_acked_at))

-- How many rows break one of them.
abbrev broken : Commands → ℕ
broken t = count_where (λ c. not (satisfies_checks c)) t

abbrev rows_of : String → Commands → ℕ
rows_of id t = count_where (by_cmd_id id) t

-- How many rows of the command the agent has not replied to.
abbrev pub unmet : String → Commands → ℕ
unmet id t = count_where (λ c. by_cmd_id id c && is_unset c.transport_acked_at) t

unfoldable pub IsSound : Commands → Type 0
IsSound t = ((id : String) → rows_of id t ≤ 1) × (broken t ≡ 0)

-- `t'` has no more rows of a command than `t`, and breaks the constraints `n` more times at most.
pub Adds : ℕ → Commands → Commands → Type 0
Adds n t t' = ((id : String) → rows_of id t' ≤ rows_of id t) × (broken t' ≤ broken t + n)

pub Adds-IsSound : {n : ℕ} (t t' : Commands) → Adds n t t' → n ≡ 0 → IsSound t → IsSound t'
unfolding Adds IsSound
Adds-IsSound t t' (fewer, kept) none_added (single, whole) =
    (λ id. omega (arith, fewer id, single id), omega arith)

module _ (cmd_id : String) where
  pub cas_resolve-Adds :
      (o : CommandOutcome) (v : Via) (now : ℕ) (t : Commands)
      → Adds (if is_ack v then unmet cmd_id t else 0) t (cas_resolve cmd_id o v now t).1
  unfolding Adds cas_resolve satisfies_checks
  cas_resolve-Adds o v now [] = (λ id. ground arith, ground arith)
  cas_resolve-Adds o v now (c ∷ t) =
      let (fewer, kept) = cas_resolve-Adds o v now t in
      (λ id. ground (arith, fewer id), ground (arith, kept))

  pub set_unknown-Adds : (t : Commands) → Adds 0 t (set_unknown cmd_id t)
  unfolding Adds set_unknown satisfies_checks
  set_unknown-Adds [] = (λ id. omega arith, omega arith)
  set_unknown-Adds (c ∷ t) =
      let (fewer, kept) = set_unknown-Adds t in
      (λ id. ground (arith, fewer id), ground (arith, kept))

  pub mark_resent-Adds : (now : ℕ) (t : Commands) → Adds 0 t (mark_resent cmd_id now t)
  unfolding Adds mark_resent satisfies_checks
  mark_resent-Adds now [] = (λ id. omega arith, omega arith)
  mark_resent-Adds now (c ∷ t) =
      let (fewer, kept) = mark_resent-Adds now t in
      (λ id. ground (arith, fewer id), ground (arith, kept))

  pub mark_timeout_observed-Adds :
      (now : ℕ) (t : Commands) → Adds 0 t (mark_timeout_observed cmd_id now t).1
  unfolding Adds mark_timeout_observed satisfies_checks
  mark_timeout_observed-Adds now [] = (λ id. omega arith, omega arith)
  mark_timeout_observed-Adds now (c ∷ t) =
      let (fewer, kept) = mark_timeout_observed-Adds now t in
      (λ id. ground (arith, fewer id), ground (arith, kept))

  pub mark_transport_acked-Adds :
      (u now : ℕ) (t : Commands) → Adds 0 t (mark_transport_acked cmd_id u now t).1
  unfolding Adds mark_transport_acked satisfies_checks
  mark_transport_acked-Adds u now [] = (λ id. omega arith, omega arith)
  mark_transport_acked-Adds u now (c ∷ t) =
      let (fewer, kept) = mark_transport_acked-Adds u now t in
      (λ id. ground (arith, fewer id), ground (arith, kept))

  -- The row that the reply marks is one of the rows of the command that had none.
  unmet-marked :
      (u now : ℕ) (t : Commands)
      → unmet cmd_id (mark_transport_acked cmd_id u now t).1 + count_where (is_unacked cmd_id u) t
        ≤ rows_of cmd_id t
  unfolding mark_transport_acked
  unmet-marked u now [] = omega arith
  unmet-marked u now (c ∷ t) = ground (arith, unmet-marked u now t)

  -- With at most one row of a command, a reply that counts has reached it.
  pub marked_is_met :
      (u now : ℕ) (t : Commands)
      → rows_of cmd_id t ≤ 1
      → (mark_transport_acked cmd_id u now t).0 ≡ true
      → unmet cmd_id (mark_transport_acked cmd_id u now t).1 ≡ 0
  marked_is_met u now t single first =
      let won : (count_where (is_unacked cmd_id u) t == 1) ≡ true =
        unfold mark_transport_acked in first in
      ground (arith, unmet-marked u now t)
