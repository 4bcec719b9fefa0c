-- ===== src/Auth/DeviceFlow/Rotation.antt =====
-- How many tokens are in force.
use quanquant.Base.{ℕ, String, List, [], ◌∷◌, ◌==◌, count_where, Option-cases, Bool-cases, inl, inr}
use quanquant.Auth.AgentTokens.{commit_rotation, issue_token}
use quanquant.Auth.AgentTokens.Single.{IsSingle, commit_rotation-IsSingle, validate_token-IsSingle}
use quanquant.Auth.DeviceFlow.{
  create_device_code, is_claimable, claim_and_issue_device_token, AuthTables,
}
use quanquant.Auth.DeviceFlow.Calls.{
  FlowCall, requested, approved_for, denied_for, polled, claims, issued, validated, codes_if,
  tokens_if, flow_call, flow_calls,
}

module _ (hash : String → String) where
  claim-IsSingle :
      (id user ttl : ℕ) (raw : String) (now : ℕ) (again : String) (later : ℕ) (b : AuthTables)
      → IsSingle b.tokens
      → IsSingle (claim_and_issue_device_token hash id user ttl raw now again later b).1.tokens
  unfolding claim_and_issue_device_token
  claim-IsSingle id user ttl raw now again later b s =
      elim (Bool-cases (count_where (is_claimable id user) b.codes == 0)) [
        | inl gone ↦ rw gone s
        | inr there ↦ elim (Option-cases (commit_rotation hash user ttl raw now b.tokens)) [
          | inr (t, done) ↦
              rw (there, done) (commit_rotation-IsSingle hash user ttl raw now b.tokens t done s)
          | inl twice ↦ elim (Option-cases (commit_rotation hash user ttl again later b.tokens)) [
            | inr (t, done) ↦
                rw (there, twice, done)
                  (commit_rotation-IsSingle hash user ttl again later b.tokens t done s)
            | inl failed ↦ rw (there, twice, failed) s
          ]
        ]
      ]

  issue-IsSingle :
      (user ttl : ℕ) (raw again : String) (now : ℕ) (b : AuthTables)
      → IsSingle b.tokens
      → IsSingle (tokens_if (issue_token hash user ttl raw again now b.tokens) b).tokens
  unfolding issue_token
  issue-IsSingle user ttl raw again now b s =
      elim (Option-cases (commit_rotation hash user ttl raw now b.tokens)) [
        | inr (t, done) ↦
            rw (done, tokens_if, issue_token)
              (commit_rotation-IsSingle hash user ttl raw now b.tokens t done s)
        | inl twice ↦ elim (Option-cases (commit_rotation hash user ttl again now b.tokens)) [
          | inr (t, done) ↦
              rw (twice, done, tokens_if, issue_token)
                (commit_rotation-IsSingle hash user ttl again now b.tokens t done s)
          | inl failed ↦ rw (twice, failed, tokens_if, issue_token) s
        ]
      ]

  flow_call-IsSingle :
      (c : FlowCall) (b : AuthTables) → IsSingle b.tokens → IsSingle (flow_call hash c b).tokens
  unfolding flow_call
  flow_call-IsSingle (requested x y z ip challenge now) b s =
      elim (Option-cases (create_device_code x y z ip challenge now b.codes)) [
        | inl none_new ↦ rw (none_new, codes_if) s
        | inr ((n, t), new) ↦ rw (new, codes_if) s
      ]
  flow_call-IsSingle (approved_for code user now) b s = s
  flow_call-IsSingle (denied_for code now) b s = s
  flow_call-IsSingle (polled row now) b s = s
  flow_call-IsSingle (claims id user ttl raw now again later) b s =
      claim-IsSingle id user ttl raw now again later b s
  flow_call-IsSingle (issued user ttl raw again now) b s = issue-IsSingle user ttl raw again now b s
  flow_call-IsSingle (validated raw now) b s = validate_token-IsSingle hash raw now b.tokens s

-- From a table with at most one token in force for each user, any sequence of requests, approvals,
-- denials, polls, claims, issues and validations leaves at most one for each user.
pub flow_calls-IsSingle :
    (hash : String → String) (cs : List FlowCall) (b : AuthTables)
    → IsSingle b.tokens
    → IsSingle (flow_calls hash cs b).tokens
unfolding flow_calls
flow_calls-IsSingle hash [] b s = s
flow_calls-IsSingle hash (c ∷ cs) b s =
    flow_calls-IsSingle hash cs (flow_call hash c b) (flow_call-IsSingle hash c b s)
