-- ===== src/Auth/DeviceFlow/Granted.antt =====
-- Who gets a token from a poll.
use quanquant.Base.{
  ℕ, ◌≤◌, ◌<◌, ◌≡◌, ◌≢◌, refl, String, false, not, Option, none, some, [], ◌∷◌, arith, ◌==◌,
  if◌then◌else◌, find?, update_where, count_where, Bool-cases, Option-cases, inl, inr, leb, str_eq,
  str_eq_iff,
}
use quanquant.Auth.AgentTokens.{commit_rotation, is_null_time}
use quanquant.Auth.DeviceFlow.{
  AgentDeviceCode, DeviceCodes, is_as_read, is_claimable, is_pending, is_denied,
  claim_and_issue_device_token, AuthTables, throttled, apply_poll_throttle, by_code_id, PollState,
  granted, invalid, already_consumed, was_denied, has_expired, raised, after_lost, claim_state,
  poll_claim, slowed_or, poll_device_token,
}

-- The verifier fits the code that was asked for, the code has not expired, and its row in the table
-- is approved by the user and not consumed.
abbrev pub Entitled :
    (String → String) → String → ℕ → ℕ → DeviceCodes → Option AgentDeviceCode → Type 0
Entitled sha verifier now user t none = ⊥
Entitled sha verifier now user t (some row) =
    (sha verifier ≡ row.code_challenge)
    × (now < row.expires_at)
    × (1 ≤ count_where (is_claimable row.id user) t)

claimable-throttled :
    (row : AgentDeviceCode) (now id user : ℕ) (t : DeviceCodes)
    → count_where (is_claimable id user) (update_where (is_as_read row) (throttled row now) t)
      ≡ count_where (is_claimable id user) t
unfolding throttled
claimable-throttled row now id user [] = refl
claimable-throttled row now id user (x ∷ t) = ground (arith, claimable-throttled row now id user t)

claimable-apply_poll_throttle :
    (row : AgentDeviceCode) (now id user : ℕ) (t : DeviceCodes)
    → count_where (is_claimable id user) (apply_poll_throttle row now t).1
      ≡ count_where (is_claimable id user) t
unfolding apply_poll_throttle
claimable-apply_poll_throttle row now id user t =
    ground (arith, claimable-throttled row now id user t)

after_lost-not_granted :
    (o : Option AgentDeviceCode) (now : ℕ) (raw : String) (user : ℕ)
    → after_lost o now ≢ granted raw user
after_lost-not_granted none now raw user h = cc
after_lost-not_granted (some c) now raw user h = ground arith

module _ (hash sha : String → String) where
  claimed_needs :
      (id owner ttl : ℕ) (raw : String) (now : ℕ) (again r : String) (user : ℕ) (b : AuthTables)
      → (claim_state hash sha id owner now
          (claim_and_issue_device_token hash id owner ttl raw now again now b)).0
        ≡ granted r user
      → (owner ≡ user) × (1 ≤ count_where (is_claimable id owner) b.codes)
  unfolding claim_and_issue_device_token
  claimed_needs id owner ttl raw now again r user b h =
      let not_lost = after_lost-not_granted (find? (by_code_id id) b.codes) now r user in
      let some_claimable : (count_where (is_claimable id owner) b.codes == 0) ≡ false
          → 1 ≤ count_where (is_claimable id owner) b.codes =
        λ e. ground arith in
      elim (Bool-cases (count_where (is_claimable id owner) b.codes == 0)) [
        | inl gone ↦ absurd (not_lost (rw gone at h))
        | inr there ↦ elim (Option-cases (commit_rotation hash owner ttl raw now b.tokens)) [
          | inr (t, done) ↦
              let won : granted raw owner ≡ granted r user = rw (there, done) at h in
              (cc won, some_claimable there)
          | inl twice ↦ elim (Option-cases (commit_rotation hash owner ttl again now b.tokens)) [
            | inr (t, done) ↦
                let won : granted again owner ≡ granted r user = rw (there, twice, done) at h in
                (cc won, some_claimable there)
            | inl failed ↦
                let won : raised ≡ granted r user = rw (there, twice, failed) at h in
                absurd (cc won)
          ]
        ]
      ]

  poll_claim_needs :
      (id ttl : ℕ) (raw again : String) (now : ℕ) (r : String) (user : ℕ) (b : AuthTables)
      → (poll_claim hash sha id ttl raw again now b).0 ≡ granted r user
      → 1 ≤ count_where (is_claimable id user) b.codes
  unfolding poll_claim
  poll_claim_needs id ttl raw again now r user b h =
      elim (Option-cases (find? (by_code_id id) b.codes)) [
        | inl gone ↦ absurd (ground arith)
        | inr (row, there) ↦ elim (Bool-cases (is_pending row.status)) [
          | inl waits ↦ absurd (ground arith)
          | inr answered ↦ elim (Option-cases row.user_id) [
            | inl nobody ↦ absurd (ground arith)
            | inr (owner, o) ↦
                let (same, claimable) =
                  claimed_needs id owner ttl raw now again r user b
                    (rw (there, answered, o, poll_claim) at h) in
                rw same at claimable
          ]
        ]
      ]

  -- What the tests before the throttle leave.
  row_needs :
      (verifier : String) (ttl : ℕ) (raw again : String) (now : ℕ) (b : AuthTables) (r : String)
      (user : ℕ) (row : AgentDeviceCode) (step : PollState × AuthTables)
      → (if not (str_eq (sha verifier) row.code_challenge)
          then (invalid, b)
          else if not (is_null_time row.consumed_at)
          then (already_consumed, b)
          else if is_denied row.status
          then (was_denied, b)
          else if leb row.expires_at now
          then (has_expired, b)
          else step).0
        ≡ granted r user
      → (sha verifier ≡ row.code_challenge) × (now < row.expires_at) × (step.0 ≡ granted r user)
  row_needs verifier ttl raw again now b r user row step h =
      ground (arith, str_eq_iff (sha verifier) row.code_challenge)

  throttled_needs :
      (ttl : ℕ) (raw again : String) (now : ℕ) (r : String) (user : ℕ) (row : AgentDeviceCode)
      (b : AuthTables) (answer : Option ℕ) (codes : DeviceCodes)
      → (slowed_or hash sha answer
          (record b { codes = codes })
          (poll_claim hash sha row.id ttl raw again now (record b { codes = codes }))).0
        ≡ granted r user
      → 1 ≤ count_where (is_claimable row.id user) codes
  throttled_needs ttl raw again now r user row b (some interval) codes h = absurd (cc)
  throttled_needs ttl raw again now r user row b none codes h =
      poll_claim_needs row.id ttl raw again now r user (record b { codes = codes }) h

-- A poll that is answered with a token for a user is one whose verifier fits the code that it names,
-- before the code expires, where that user has approved the code and nobody has consumed it.
pub granted_only :
    (hash sha : String → String) (code verifier : String) (ttl : ℕ) (raw again : String) (now : ℕ)
    (b : AuthTables) (r : String) (user : ℕ)
    → (poll_device_token hash sha code verifier ttl raw again now b).0 ≡ granted r user
    → Entitled sha verifier now user b.codes
        (find? (λ c. str_eq c.device_code_hash (sha code)) b.codes)
unfolding poll_device_token
granted_only hash sha code verifier ttl raw again now b r user h =
    elim (Option-cases (find? (λ c. str_eq c.device_code_hash (sha code)) b.codes)) [
      | inl gone ↦ absurd (ground arith)
      | inr (row, there) ↦
          let (fits, live, passed) =
            row_needs hash sha verifier ttl raw again now b r user row _
              (rw (there, poll_device_token) at h) in
          let (answer, codes) = apply_poll_throttle row now b.codes in
          let claimable =
            throttled_needs hash sha ttl raw again now r user row b answer codes passed in
          rw there (
            fits,
            live,
            rw (claimable-apply_poll_throttle row now row.id user b.codes) at claimable,
          )
    ]
