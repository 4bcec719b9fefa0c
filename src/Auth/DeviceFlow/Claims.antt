-- ===== src/Auth/DeviceFlow/Claims.antt =====
-- How often a code is claimed.
use quanquant.Base.{
  ℕ, ◌+◌, ◌≤◌, ◌≡◌, String, Bool, true, ◌&&◌, not, Option, none, some, List, [], ◌∷◌, arith, ◌==◌,
  if◌then◌else◌, find?, select, update_where, count_where, count_where-append, Option-cases,
  Bool-cases, inl, inr, ltb,
}
use quanquant.Auth.AgentTokens.{is_null_time, commit_rotation, issue_token}
use quanquant.Auth.DeviceFlow.{
  AgentDeviceCode, DeviceCodes, NewCode, device_code, create_attempts, create_device_code,
  approve_device_code, collides, deny_device_code, is_claimable, claim_on,
  claim_and_issue_device_token, AuthTables, apply_poll_throttle, by_code_id, is_open_code,
  approved_by, denied_code, is_as_read, throttled,
}
use quanquant.Auth.DeviceFlow.Calls.{
  FlowCall, requested, approved_for, denied_for, polled, claims, issued, validated, is_claimed,
  flow_call, grants, grants_of, gives_no, give_no,
}

abbrev is_unclaimed : ℕ → AgentDeviceCode → Bool
is_unclaimed id c = by_code_id id c && is_null_time c.consumed_at

abbrev unclaimed : ℕ → DeviceCodes → ℕ
unclaimed id t = count_where (is_unclaimed id) t

cleaned-le :
    (p : AgentDeviceCode → Bool) (id : ℕ) (t : DeviceCodes)
    → unclaimed id (select p t) ≤ unclaimed id t
cleaned-le p id [] = omega arith
cleaned-le p id (x ∷ t) = ground (arith, cleaned-le p id t)

approved-le :
    (code : String) (user now id : ℕ) (t : DeviceCodes)
    → unclaimed id (update_where (is_open_code code now) (approved_by user) t) ≤ unclaimed id t
approved-le code user now id [] = omega arith
approved-le code user now id (x ∷ t) = ground (arith, approved-le code user now id t)

denied-le :
    (code : String) (now id : ℕ) (t : DeviceCodes)
    → unclaimed id (update_where (is_open_code code now) denied_code t) ≤ unclaimed id t
denied-le code now id [] = omega arith
denied-le code now id (x ∷ t) = ground (arith, denied-le code now id t)

throttled-le :
    (row : AgentDeviceCode) (now id : ℕ) (t : DeviceCodes)
    → unclaimed id (update_where (is_as_read row) (throttled row now) t) ≤ unclaimed id t
unfolding throttled
throttled-le row now id [] = omega arith
throttled-le row now id (x ∷ t) = ground (arith, throttled-le row now id t)

-- A claim takes the rows that it finds out of the unclaimed ones.
claim_on-le :
    (code_id user now id : ℕ) (t : DeviceCodes)
    → unclaimed id (claim_on code_id user now t)
        + (if code_id == id then count_where (is_claimable code_id user) t else 0)
      ≤ unclaimed id t
claim_on-le code_id user now id [] = ground arith
claim_on-le code_id user now id (x ∷ t) = ground (arith, claim_on-le code_id user now id t)

abbrev all_other : ℕ → List NewCode → Bool
all_other id [] = true
all_other id (n ∷ ns) = not (n.id == id) && all_other id ns

abbrev CodesLe : ℕ → ℕ → Option (NewCode × DeviceCodes) → Type 0
CodesLe id m none = Unit {0}
CodesLe id m (some (n, t)) = unclaimed id t ≤ m

create_attempts-le :
    (id : ℕ) (ns : List NewCode) (ip challenge : String) (now m : ℕ) (cleaned t : DeviceCodes)
    → all_other id ns ≡ true
    → unclaimed id cleaned ≤ m
    → unclaimed id t ≤ m
    → CodesLe id m (create_attempts ns ip challenge now cleaned t)
unfolding create_attempts
create_attempts-le id [] ip challenge now m cleaned t other h k = tt
create_attempts-le id (n ∷ ns) ip challenge now m cleaned t other h k =
    elim (Option-cases (find? (collides n) cleaned)) [
      | inr (c, taken) ↦
          rw (taken, CodesLe, create_attempts)
            (create_attempts-le id ns ip challenge now m t t (ground arith) k k)
      | inl free ↦
          rw (free, CodesLe, create_attempts)
            (ground (
              arith,
              count_where-append {0} (is_unclaimed id) cleaned
                  (device_code n ip challenge now ∷ []),
            ))
    ]

module _ (hash : String → String) where
  claim_step :
      (code_id id user ttl : ℕ) (raw : String) (now : ℕ) (again : String) (later : ℕ)
      (b : AuthTables)
      → let (answer, b') = claim_and_issue_device_token hash id user ttl raw now again later b in
        (if id == code_id && is_claimed answer then 1 else 0) + unclaimed code_id b'.codes
        ≤ unclaimed code_id b.codes
  unfolding claim_and_issue_device_token
  claim_step code_id id user ttl raw now again later b =
      let taken = claim_on-le id user now code_id b.codes in
      let taken_later = claim_on-le id user later code_id b.codes in
      elim (Bool-cases (count_where (is_claimable id user) b.codes == 0)) [
        | inl gone ↦ rw gone (ground arith)
        | inr there ↦ elim (Option-cases (commit_rotation hash user ttl raw now b.tokens)) [
          | inr (t, done) ↦ rw (there, done) (ground (arith, taken))
          | inl twice ↦ elim (Option-cases (commit_rotation hash user ttl again later b.tokens)) [
            | inr (t, done) ↦ rw (there, twice, done) (ground (arith, taken_later))
            | inl failed ↦ rw (there, twice, failed) (ground arith)
          ]
        ]
      ]

  grants-le_unclaimed :
      (id : ℕ) (c : FlowCall) (b : AuthTables)
      → gives_no id c ≡ true
      → (if grants hash id c b then 1 else 0) + unclaimed id (flow_call hash c b).codes
        ≤ unclaimed id b.codes
  unfolding flow_call approve_device_code deny_device_code apply_poll_throttle create_device_code
  grants-le_unclaimed id (requested x y z ip challenge now) b other =
      let cleaned = select (λ r. not (ltb (r.expires_at + 86400000) now)) b.codes in
      let all_le =
        create_attempts-le id (x ∷ y ∷ z ∷ []) ip challenge now (unclaimed id b.codes) cleaned
          b.codes (ground arith) (cleaned-le _ id b.codes) (omega arith) in
      elim (Option-cases (create_device_code x y z ip challenge now b.codes)) [
        | inl none_new ↦ rw none_new (omega arith)
        | inr ((n, t), new) ↦ rw new (omega (arith, rw new at all_le))
      ]
  grants-le_unclaimed id (approved_for code user now) b other =
      ground (arith, approved-le code user now id b.codes)
  grants-le_unclaimed id (denied_for code now) b other =
      ground (arith, denied-le code now id b.codes)
  grants-le_unclaimed id (polled row now) b other = ground (arith, throttled-le row now id b.codes)
  grants-le_unclaimed id (claims code_id user ttl raw now again later) b other =
      claim_step id code_id user ttl raw now again later b
  grants-le_unclaimed id (issued user ttl raw again now) b other =
      elim (Option-cases (issue_token hash user ttl raw again now b.tokens)) [
        | inl failed ↦ rw failed (omega arith)
        | inr ((r, t), done) ↦ rw done (omega arith)
      ]
  grants-le_unclaimed id (validated raw now) b other = omega arith

  grants_of-le_unclaimed :
      (id : ℕ) (cs : List FlowCall) (b : AuthTables)
      → give_no id cs ≡ true
      → grants_of hash id cs b ≤ unclaimed id b.codes
  unfolding grants_of
  grants_of-le_unclaimed id [] b other = omega arith
  grants_of-le_unclaimed id (c ∷ cs) b other = omega (
    arith,
    grants-le_unclaimed id c b (ground arith),
    grants_of-le_unclaimed id cs (flow_call hash c b) (ground arith),
  )

unclaimed-le : (id : ℕ) (t : DeviceCodes) → unclaimed id t ≤ count_where (by_code_id id) t
unclaimed-le id [] = omega arith
unclaimed-le id (x ∷ t) = ground (arith, unclaimed-le id t)

-- If the table has at most one code with the id and the database gives the id to no new code, then in
-- any sequence of requests, approvals, denials, claims and issues, and of polls on rows that may have
-- been read at any earlier time, at most one claim gives out a token for that code.
pub grants_of-le :
    (hash : String → String) (id : ℕ) (cs : List FlowCall) (b : AuthTables)
    → count_where (by_code_id id) b.codes ≤ 1
    → give_no id cs ≡ true
    → grants_of hash id cs b ≤ 1
grants_of-le hash id cs b single other =
    omega (arith, grants_of-le_unclaimed hash id cs b other, unclaimed-le id b.codes)
