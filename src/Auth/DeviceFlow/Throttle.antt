-- ===== src/Auth/DeviceFlow/Throttle.antt =====
-- How fast an agent may poll.
use quanquant.Base.{
  ℕ, ◌+◌, ◌≤◌, String, Bool, not, Option, none, some, List, [], ◌∷◌, ◌++◌, arith, find?, select,
  update_where, All, Bool-cases, Option-cases, inl, inr, ltb,
}
use quanquant.Auth.DeviceFlow.Calls.{
  FlowCall, requested, approved_for, denied_for, polled, claims, issued, validated, codes_if,
  tokens_if, flow_call, flow_calls,
}
use quanquant.Auth.AgentTokens.{issue_token}
use quanquant.Auth.DeviceFlow.{
  AgentDeviceCode, DeviceCodes, NewCode, device_code, create_attempts, create_device_code, collides,
  approve_device_code, deny_device_code, is_open_code, approved_by, denied_code, is_as_read,
  is_claimable, with_consumed, claim_and_issue_device_token, AuthTables, throttled,
  apply_poll_throttle,
}

-- The interval lies between the first one and thirty seconds, and four violations at most are noted.
unfoldable pub IsPaced : AgentDeviceCode → Type 0
IsPaced c = (5 ≤ c.current_interval) × (c.current_interval ≤ 30) × (c.consecutive_violations ≤ 4)

abbrev pub AllPaced : DeviceCodes → Type 0
AllPaced t = All IsPaced t

throttled-IsPaced :
    (row c : AgentDeviceCode) (now : ℕ) → IsPaced row → IsPaced (throttled row now c)
unfolding IsPaced throttled
throttled-IsPaced row c now paced = ground arith

module _ (p : AgentDeviceCode → Bool) where
  All-where :
      (f : AgentDeviceCode → AgentDeviceCode) (t : DeviceCodes)
      → ((c : AgentDeviceCode) → IsPaced c → IsPaced (f c))
      → AllPaced t
      → AllPaced (update_where p f t)
  All-where f [] keeps h = tt
  All-where f (x ∷ t) keeps (s, h) = elim (Bool-cases (p x)) [
    | inl this ↦ rw this (keeps x s, All-where f t keeps h)
    | inr other ↦ rw other (s, All-where f t keeps h)
  ]

  All-select : (t : DeviceCodes) → AllPaced t → AllPaced (select p t)
  All-select [] h = tt
  All-select (x ∷ t) (s, h) = elim (Bool-cases (p x)) [
    | inl kept ↦ rw kept (s, All-select t h)
    | inr gone ↦ rw gone (All-select t h)
  ]

All-added :
    (t : DeviceCodes) (c : AgentDeviceCode) → AllPaced t → IsPaced c → AllPaced (t ++ c ∷ [])
All-added [] c h s = (s, tt)
All-added (x ∷ t) c (p, h) s = (p, All-added t c h s)

abbrev PacedIf : Option (NewCode × DeviceCodes) → Type 0
PacedIf none = Unit {0}
PacedIf (some (n, t)) = AllPaced t

create_attempts-paced :
    (ns : List NewCode) (ip challenge : String) (now : ℕ) (cleaned t : DeviceCodes)
    → AllPaced cleaned
    → AllPaced t
    → PacedIf (create_attempts ns ip challenge now cleaned t)
unfolding create_attempts IsPaced
create_attempts-paced [] ip challenge now cleaned t h k = tt
create_attempts-paced (n ∷ ns) ip challenge now cleaned t h k =
    elim (Option-cases (find? (collides n) cleaned)) [
      | inr (c, taken) ↦
          rw (taken, PacedIf, create_attempts) (create_attempts-paced ns ip challenge now t t k k)
      | inl free ↦
          rw (free, PacedIf, create_attempts)
            (All-added cleaned (device_code n ip challenge now) h (omega arith))
    ]

-- A poll acts on a row that was in the table when it was read.
abbrev pub ReadsPaced : FlowCall → Type 0
ReadsPaced (polled row now) = IsPaced row
ReadsPaced _ = Unit {0}

module _ (hash : String → String) where
  claim-paced :
      (id user ttl : ℕ) (raw : String) (now : ℕ) (again : String) (later : ℕ) (b : AuthTables)
      → AllPaced b.codes
      → AllPaced (claim_and_issue_device_token hash id user ttl raw now again later b).1.codes
  unfolding claim_and_issue_device_token IsPaced
  claim-paced id user ttl raw now again later b h =
      let claimed_now = All-where (is_claimable id user) (with_consumed now) b.codes (λ c s. s) h in
      let claimed_later =
        All-where (is_claimable id user) (with_consumed later) b.codes (λ c s. s) h in
      ground (arith, claimed_now, claimed_later)

  flow_call-paced :
      (c : FlowCall) (b : AuthTables)
      → ReadsPaced c
      → AllPaced b.codes
      → AllPaced (flow_call hash c b).codes
  unfolding flow_call create_device_code IsPaced
  flow_call-paced (requested x y z ip challenge now) b r h =
      let cleaned = select (λ c. not (ltb (c.expires_at + 86400000) now)) b.codes in
      let paced =
        create_attempts-paced (x ∷ y ∷ z ∷ []) ip challenge now cleaned b.codes
          (All-select _ b.codes h) h in
      elim (Option-cases (create_device_code x y z ip challenge now b.codes)) [
        | inl none_new ↦ rw (none_new, codes_if) h
        | inr ((n, t), new) ↦ rw (new, codes_if) (rw new at paced)
      ]
  flow_call-paced (approved_for code user now) b r h =
      let written = All-where (is_open_code code now) (approved_by user) b.codes (λ c s. s) h in
      unfold approve_device_code IsPaced in ground (arith, written)
  flow_call-paced (denied_for code now) b r h =
      let written = All-where (is_open_code code now) denied_code b.codes (λ c s. s) h in
      unfold deny_device_code IsPaced in ground (arith, written)
  flow_call-paced (polled row now) b r h =
      let written =
        All-where (is_as_read row) (throttled row now) b.codes
          (λ c s. throttled-IsPaced row c now r) h in
      unfold apply_poll_throttle IsPaced in ground (arith, written)
  flow_call-paced (claims id user ttl raw now again later) b r h =
      claim-paced id user ttl raw now again later b h
  flow_call-paced (issued user ttl raw again now) b r h =
      elim (Option-cases (issue_token hash user ttl raw again now b.tokens)) [
        | inl failed ↦ rw (failed, tokens_if) h
        | inr ((r, t), done) ↦ rw (done, tokens_if) h
      ]
  flow_call-paced (validated raw now) b r h = h

-- Where every polling interval lies between five and thirty seconds and at most four violations are
-- noted, any sequence of the writes of the flow leaves it so, if each poll acts on a row of which this
-- held when it was read.
pub flow_calls-paced :
    (hash : String → String) (cs : List FlowCall) (b : AuthTables)
    → All ReadsPaced cs
    → AllPaced b.codes
    → AllPaced (flow_calls hash cs b).codes
unfolding flow_calls
flow_calls-paced hash [] b rs h = h
flow_calls-paced hash (c ∷ cs) b (r, rs) h =
    flow_calls-paced hash cs (flow_call hash c b) rs (flow_call-paced hash c b r h)
