-- ===== src/Auth/AgentTokens/Single.antt =====
-- How many tokens of a user are in force.
use quanquant.Base.{
  ℕ, ◌≤◌, ◌≡◌, refl, String, some, [], ◌∷◌, arith, ◌==◌, if◌then◌else◌, update_where, count_where,
  count_where-append,
}
use quanquant.Auth.AgentTokens.{
  AgentTokens, is_unrevoked_of, revoked, by_hash, agent_token, stage_rotation, commit_rotation,
  validate_token,
}

abbrev pub active_of : ℕ → AgentTokens → ℕ
active_of u t = count_where (is_unrevoked_of u) t

unfoldable pub IsSingle : AgentTokens → Type 0
IsSingle t = (u : ℕ) → active_of u t ≤ 1

revoked-active :
    (user_id now u : ℕ) (t : AgentTokens)
    → active_of u (update_where (is_unrevoked_of user_id) (revoked now) t)
      ≡ (if user_id == u then 0 else active_of u t)
revoked-active user_id now u [] = ground arith
revoked-active user_id now u (x ∷ t) = ground (arith, revoked-active user_id now u t)

used-active :
    (h : String) (now u : ℕ) (t : AgentTokens)
    → active_of u (update_where (by_hash h) (λ k. record k { last_used_at = some now }) t)
      ≡ active_of u t
used-active h now u [] = refl
used-active h now u (x ∷ t) = ground (arith, used-active h now u t)

module _ (hash : String → String) where
  -- A rotation leaves the user one token in force, and the others what they had.
  pub active_of-stage_rotation :
      (user_id ttl_days : ℕ) (raw : String) (now u : ℕ) (t : AgentTokens)
      → active_of u (stage_rotation hash user_id ttl_days raw now t)
        ≡ (if user_id == u then 1 else active_of u t)
  unfolding stage_rotation
  active_of-stage_rotation user_id ttl_days raw now u t =
      let added =
        count_where-append {0} (is_unrevoked_of u)
          (update_where (is_unrevoked_of user_id) (revoked now) t)
          (agent_token hash user_id ttl_days raw now ∷ []) in
      ground (arith, added, revoked-active user_id now u t)

  pub commit_rotation-active :
      (user_id ttl_days : ℕ) (raw : String) (now : ℕ) (t t' : AgentTokens)
      → commit_rotation hash user_id ttl_days raw now t ≡ some t'
      → (u : ℕ) → active_of u t' ≡ (if user_id == u then 1 else active_of u t)
  unfolding commit_rotation
  commit_rotation-active user_id ttl_days raw now t t' h u =
      ground (arith, active_of-stage_rotation user_id ttl_days raw now u t)

  pub commit_rotation-IsSingle :
      (user_id ttl_days : ℕ) (raw : String) (now : ℕ) (t t' : AgentTokens)
      → commit_rotation hash user_id ttl_days raw now t ≡ some t'
      → IsSingle t
      → IsSingle t'
  unfolding IsSingle
  commit_rotation-IsSingle user_id ttl_days raw now t t' h s u =
      ground (arith, commit_rotation-active user_id ttl_days raw now t t' h u, s u)

  pub validate_token-IsSingle :
      (raw : String) (now : ℕ) (t : AgentTokens)
      → IsSingle t
      → IsSingle (validate_token hash raw now t).1
  unfolding IsSingle validate_token
  validate_token-IsSingle raw now t s u = ground (arith, used-active (hash raw) now u t, s u)
