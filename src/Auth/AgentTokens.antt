-- ===== src/Auth/AgentTokens.antt =====
-- The tokens of the agents (quanquant/auth/agent_tokens.py; the row is `AgentToken` of
-- quanquant/db/models.py). A raw token is a random text that the caller draws; the table keeps its
-- hash, which is a parameter. Times are counts of milliseconds.
pub mod Single
use quanquant.Base.{
  ℕ, ◌+◌, ◌*◌, String, Bool, true, false, ◌&&◌, ◌||◌, not, Option, none, some, List, [], ◌∷◌, ◌++◌,
  leb, ◌==◌, str_eq, if◌then◌else◌, find?, update_where, count_where,
}

pub record AgentToken : Type 0 where
  pub user_id : ℕ
  pub token_hash : String
  pub created_at : ℕ
  pub expires_at : ℕ
  pub revoked_at : Option ℕ
  pub last_used_at : Option ℕ

abbrev pub AgentTokens : Type 0
AgentTokens = List AgentToken

abbrev pub is_null_time : Option ℕ → Bool
is_null_time none = true
is_null_time (some _) = false

abbrev pub is_unrevoked_of : ℕ → AgentToken → Bool
is_unrevoked_of user_id t = t.user_id == user_id && is_null_time t.revoked_at

abbrev pub days : ℕ → ℕ
days n = n * 86400000

abbrev pub by_hash : String → AgentToken → Bool
by_hash h t = str_eq t.token_hash h

abbrev pub revoked : ℕ → AgentToken → AgentToken
revoked now t = record t { revoked_at = some now }

module _ (hash : String → String) where
  abbrev pub agent_token : ℕ → ℕ → String → ℕ → AgentToken
  agent_token user_id ttl_days raw now = record {
    user_id = user_id;
    token_hash = hash raw;
    created_at = now;
    expires_at = now + days ttl_days;
    revoked_at = none;
    last_used_at = none;
  }

  unfoldable pub stage_rotation : ℕ → ℕ → String → ℕ → AgentTokens → AgentTokens
  stage_rotation user_id ttl_days raw now t =
      update_where (is_unrevoked_of user_id) (revoked now) t
      ++ agent_token user_id ttl_days raw now ∷ []

  -- The commit after it; `none` is the error of the unique hash, after which the old table stands.
  unfoldable pub commit_rotation : ℕ → ℕ → String → ℕ → AgentTokens → Option AgentTokens
  unfolding stage_rotation
  commit_rotation user_id ttl_days raw now t = elim (find? (by_hash (hash raw)) t) [
    | some _ ↦ none
    | none ↦ some (stage_rotation user_id ttl_days raw now t)
  ]

  -- Two attempts, each with a raw token of its own.
  unfoldable pub issue_token :
      ℕ → ℕ → String → String → ℕ → AgentTokens → Option (String × AgentTokens)
  unfolding commit_rotation
  issue_token user_id ttl_days raw again now t = elim (commit_rotation user_id ttl_days raw now t) [
    | some t' ↦ some (raw, t')
    | none ↦ elim (commit_rotation user_id ttl_days again now t) [
      | some t' ↦ some (again, t')
      | none ↦ none
    ]
  ]

  unfoldable pub validate_token : String → ℕ → AgentTokens → Option AgentToken × AgentTokens
  validate_token raw now t =
      if str_eq raw "" then (none, t) else elim (find? (by_hash (hash raw)) t) [
        | none ↦ (none, t)
        | some token ↦
            if not (is_null_time token.revoked_at) || leb token.expires_at now then (none, t) else (
              some (record token { last_used_at = some now }),
              update_where (by_hash (hash raw)) (λ k. record k { last_used_at = some now }) t,
            )
      ]

unfoldable pub get_active_token : ℕ → AgentTokens → Option AgentToken
get_active_token user_id = find? (is_unrevoked_of user_id)
