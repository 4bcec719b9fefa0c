-- ===== src/Agent/Runner/Latch.antt =====
-- The latch of a failure, and what ends it.
use quanquant.Base.{
  ℕ, ◌≡◌, refl, String, Bool, true, false, ◌&&◌, not, Option, List, [], ◌∷◌, arith, Option-cases,
  inl, inr,
}
use quanquant.Agent.Buffer.{append, open_buffer, assert_account, lookup_command}
use quanquant.Agent.Runner.{
  AgentRunner, DownCommand, CommandResult, CallFate, execute_mutating_command, latch,
  load_persisted_health,
}
use quanquant.Agent.Runner.Events.{
  AgentEvent, delivered, confirmed, landed, child_failed, latched, reconnected, child_started,
  restarted, child_ready, report_row, landed_in, agent_step, is_asked, of_command, asks,
}

abbrev pub is_restart : AgentEvent → Bool
is_restart (restarted mode now d) = true
is_restart _ = false

abbrev pub no_restart : List AgentEvent → Bool
no_restart [] = true
no_restart (e ∷ es) = not (is_restart e) && no_restart es

module _ (dumps : CommandResult → String) where
  delivered-latched :
      (id : String) (c : DownCommand) (now : ℕ) (reply : Option CommandResult) (fate : CallFate)
      (s : AgentRunner)
      → s.latched ≡ true
      → (of_command dumps is_asked id (delivered c now reply fate) s ≡ 0)
        × ((execute_mutating_command dumps c now reply fate s).1.latched ≡ true)
  unfolding execute_mutating_command
  delivered-latched id c now reply fate s h =
      elim (Option-cases (lookup_command c.cmd_id s.buffer)) [
        | inl new ↦ rw (new, h, execute_mutating_command) (ground arith, refl)
        | inr (r, old) ↦ rw (old, execute_mutating_command) (ground arith, h)
      ]

  agent_step-latched :
      (id : String) (e : AgentEvent) (s : AgentRunner)
      → is_restart e ≡ false
      → s.latched ≡ true
      → (of_command dumps is_asked id e s ≡ 0) × ((agent_step dumps e s).latched ≡ true)
  unfolding agent_step latch load_persisted_health
  agent_step-latched id (delivered c now reply fate) s e h =
      delivered-latched id c now reply fate s h
  agent_step-latched id (confirmed event_id now) s e h = (refl, h)
  agent_step-latched id (landed kind payload account mode) s e h =
      elim (Option-cases (append (report_row kind payload account mode) s.buffer)) [
        | inl refused ↦ rw (refused, landed_in) (refl, h)
        | inr ((i, b), done) ↦ rw (done, landed_in) (refl, h)
      ]
  agent_step-latched id (child_failed detail) s e h = (refl, h)
  agent_step-latched id (latched detail expected current) s e h = (refl, ground arith)
  agent_step-latched id reconnected s e h = (refl, ground arith)
  agent_step-latched id (child_started account now) s e h =
      elim (Option-cases (open_buffer now s.buffer)) [
        | inl refused ↦ rw (refused, child_ready) (refl, h)
        | inr (opened, o) ↦ elim (Option-cases (assert_account account opened)) [
          | inl refused ↦ rw (o, refused, child_ready) (refl, h)
          | inr (b, a) ↦ rw (o, a, child_ready) (refl, h)
        ]
      ]
  agent_step-latched id (restarted mode now d) s e h = absurd (cc)

-- Once the runner has latched a failure, no event asks the broker for any command until the program
-- is started again: not a new session, a new child, or a confirmation of what waits.
pub asks-latched :
    (dumps : CommandResult → String) (id : String) (es : List AgentEvent) (s : AgentRunner)
    → s.latched ≡ true
    → no_restart es ≡ true
    → asks dumps id es s ≡ 0
unfolding asks
asks-latched dumps id [] s h running = refl
asks-latched dumps id (e ∷ es) s h running =
    let (nothing, still) = agent_step-latched dumps id e s (ground arith) h in
    omega (arith, nothing, asks-latched dumps id es (agent_step dumps e s) still (ground arith))
