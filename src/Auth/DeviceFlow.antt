-- ===== src/Auth/DeviceFlow.antt =====
-- The device flow (quanquant/auth/device_flow.py; the row is `AgentDeviceCode` of
-- quanquant/db/models.py): an agent asks for a code, its user approves or denies it in the browser,
-- and the agent polls until it gets its token. The texts that are drawn at random and the hashes are
-- arguments. Times are counts of milliseconds.
pub mod Calls
pub mod Claims
pub mod Rotation
pub mod Granted
pub mod Throttle
mod Tests
use quanquant.Base.{
  ℕ, ◌+◌, ◌*◌, String, Bool, true, false, ◌&&◌, ◌||◌, not, Option, none, some, List, [], ◌∷◌, ◌++◌,
  leb, ltb, ◌==◌, min, str_eq, if◌then◌else◌, find?, select, update_where, count_where,
}
use quanquant.Auth.AgentTokens.{AgentToken, AgentTokens, is_null_time, agent_token, commit_rotation}

pub data CodeStatus : Type 0 where
  pending approved denied : CodeStatus

pub record AgentDeviceCode : Type 0 where
  pub id : ℕ
  pub device_code_hash : String
  pub code_challenge : String
  pub user_code : String
  pub user_id : Option ℕ
  pub request_ip : String
  pub status : CodeStatus
  pub expires_at : ℕ
  pub consumed_at : Option ℕ
  pub last_polled_at : Option ℕ
  pub current_interval : ℕ
  pub consecutive_violations : ℕ
  pub blocked_until : Option ℕ

abbrev pub DeviceCodes : Type 0
DeviceCodes = List AgentDeviceCode

abbrev pub device_code_ttl_ms : ℕ
device_code_ttl_ms = 600000

abbrev pub poll_interval_seconds : ℕ
poll_interval_seconds = 5

abbrev pub is_pending : CodeStatus → Bool
is_pending pending = true
is_pending _ = false

abbrev pub is_approved : CodeStatus → Bool
is_approved approved = true
is_approved _ = false

abbrev pub is_denied : CodeStatus → Bool
is_denied denied = true
is_denied _ = false

abbrev pub is_live : ℕ → AgentDeviceCode → Bool
is_live now c = is_pending c.status && ltb now c.expires_at

unfoldable pub count_active_pending_for_ip : String → ℕ → DeviceCodes → ℕ
count_active_pending_for_ip ip now = count_where (λ c. str_eq c.request_ip ip && is_live now c)

unfoldable pub count_active_pending_global : ℕ → DeviceCodes → ℕ
count_active_pending_global now = count_where (is_live now)

-- What is drawn for a new row, with the id that the database gives it.
pub record NewCode : Type 0 where
  pub id : ℕ
  pub device_code_hash : String
  pub user_code : String

abbrev pub device_code : NewCode → String → String → ℕ → AgentDeviceCode
device_code n request_ip code_challenge now = record {
  id = n.id;
  device_code_hash = n.device_code_hash;
  code_challenge = code_challenge;
  user_code = n.user_code;
  user_id = none;
  request_ip = request_ip;
  status = pending;
  expires_at = now + device_code_ttl_ms;
  consumed_at = none;
  last_polled_at = none;
  current_interval = poll_interval_seconds;
  consecutive_violations = 0;
  blocked_until = none;
}

abbrev pub collides : NewCode → AgentDeviceCode → Bool
collides n c = str_eq c.device_code_hash n.device_code_hash || str_eq c.user_code n.user_code

-- The attempts draw one after the other, three at most; a rollback takes the cleanup back too, and
-- `none` is the error of a unique key in the last attempt.
unfoldable pub create_attempts :
    List NewCode → String → String → ℕ → DeviceCodes → DeviceCodes → Option (NewCode × DeviceCodes)
create_attempts [] ip challenge now cleaned t = none
create_attempts (n ∷ ns) ip challenge now cleaned t =
    let again = create_attempts ns ip challenge now t t in
    elim (find? (collides n) cleaned) [
      | none ↦ some (n, cleaned ++ device_code n ip challenge now ∷ [])
      | some _ ↦ again
    ]

unfoldable pub create_device_code :
    NewCode → NewCode → NewCode → String → String → ℕ → DeviceCodes → Option (NewCode × DeviceCodes)
create_device_code a b c ip challenge now t =
    let cleaned = select (λ r. not (ltb (r.expires_at + 86400000) now)) t in
    create_attempts (a ∷ b ∷ c ∷ []) ip challenge now cleaned t

abbrev pub is_open_code : String → ℕ → AgentDeviceCode → Bool
is_open_code user_code now c = str_eq c.user_code user_code && is_live now c

unfoldable pub find_pending_by_user_code : String → ℕ → DeviceCodes → Option AgentDeviceCode
find_pending_by_user_code user_code now = find? (is_open_code user_code now)

abbrev pub approved_by : ℕ → AgentDeviceCode → AgentDeviceCode
approved_by user_id c = record c { status = approved; user_id = some user_id }

abbrev pub denied_code : AgentDeviceCode → AgentDeviceCode
denied_code c = record c { status = denied }

unfoldable pub approve_device_code :
    String → ℕ → ℕ → DeviceCodes → Option AgentDeviceCode × DeviceCodes
approve_device_code user_code user_id now t =
    let after = update_where (is_open_code user_code now) (approved_by user_id) t in
    if count_where (is_open_code user_code now) t == 0
    then (none, t)
    else (find? (λ c. str_eq c.user_code user_code) after, after)

unfoldable pub deny_device_code : String → ℕ → DeviceCodes → Bool × DeviceCodes
deny_device_code user_code now t =
    if count_where (is_open_code user_code now) t == 0
    then (false, t)
    else (true, update_where (is_open_code user_code now) denied_code t)

abbrev pub belongs_to : Option ℕ → ℕ → Bool
belongs_to none u = false
belongs_to (some v) u = v == u

abbrev pub is_claimable : ℕ → ℕ → AgentDeviceCode → Bool
is_claimable id user_id c =
    c.id == id
    && (belongs_to c.user_id user_id && (is_null_time c.consumed_at && is_approved c.status))

abbrev pub with_consumed : ℕ → AgentDeviceCode → AgentDeviceCode
with_consumed now c = record c { consumed_at = some now }

-- The tables that a claim writes together.
pub record AuthTables : Type 0 where
  pub codes : DeviceCodes
  pub tokens : AgentTokens

pub data Claim : Type 0 where
  lost : Claim
  claimed : (raw : String) → Claim
  integrity_error : Claim

abbrev pub claim_on : ℕ → ℕ → ℕ → DeviceCodes → DeviceCodes
claim_on id user_id now = update_where (is_claimable id user_id) (with_consumed now)

module _ (hash : String → String) where
  -- Both attempts start from the claim again, with a raw token and a time of their own.
  unfoldable pub claim_and_issue_device_token :
      ℕ → ℕ → ℕ → String → ℕ → String → ℕ → AuthTables → Claim × AuthTables
  claim_and_issue_device_token id user_id ttl_days raw now again later b =
      if count_where (is_claimable id user_id) b.codes == 0
      then (lost, b)
      else elim (commit_rotation hash user_id ttl_days raw now b.tokens) [
        | some t ↦ (claimed raw, record { codes = claim_on id user_id now b.codes; tokens = t })
        | none ↦ elim (commit_rotation hash user_id ttl_days again later b.tokens) [
          | some t ↦
              (claimed again, record { codes = claim_on id user_id later b.codes; tokens = t })
          | none ↦ (integrity_error, b)
        ]
      ]

abbrev pub by_code_id : ℕ → AgentDeviceCode → Bool
by_code_id id c = c.id == id

abbrev pub time_eq : Option ℕ → Option ℕ → Bool
time_eq none none = true
time_eq (some a) (some b) = a == b
time_eq _ _ = false

abbrev pub is_after : Option ℕ → ℕ → Bool
is_after none now = false
is_after (some t) now = ltb now t

-- `too_fast`
unfoldable pub too_fast : AgentDeviceCode → ℕ → Bool
too_fast row now = elim row.last_polled_at [
  | some last ↦ ltb now (last + row.current_interval * 1000)
  | none ↦ ltb poll_interval_seconds row.current_interval
]

-- What the throttle writes to the row that it has read.
unfoldable pub throttled : AgentDeviceCode → ℕ → AgentDeviceCode → AgentDeviceCode
unfolding too_fast
throttled row now c =
    let violations = row.consecutive_violations + 1 in
    let slower = min (row.current_interval + 5) 30 in
    let polled : AgentDeviceCode = record c { last_polled_at = some now } in
    if not (too_fast row now)
    then record polled {
      current_interval = row.current_interval;
      consecutive_violations = 0;
      blocked_until = row.blocked_until;
    }
    else if leb 5 violations
    then record polled {
      current_interval = slower;
      consecutive_violations = 0;
      blocked_until = some (now + 60000);
    }
    else record polled {
      current_interval = slower;
      consecutive_violations = violations;
      blocked_until = row.blocked_until;
    }

-- The row as it was read: the optimistic lock.
abbrev pub is_as_read : AgentDeviceCode → AgentDeviceCode → Bool
is_as_read row c = by_code_id row.id c && time_eq c.last_polled_at row.last_polled_at

abbrev pub interval_of : Option AgentDeviceCode → ℕ → ℕ
interval_of none otherwise = otherwise
interval_of (some c) otherwise = c.current_interval

-- `_apply_poll_throttle`: `some` is the interval of a `slow_down`, `none` lets the poll pass. A row
-- that another poll has written since it was read is read again.
unfoldable pub apply_poll_throttle : AgentDeviceCode → ℕ → DeviceCodes → Option ℕ × DeviceCodes
unfolding throttled too_fast
apply_poll_throttle row now t =
    let after = update_where (is_as_read row) (throttled row now) t in
    let reread = interval_of (find? (by_code_id row.id) after) row.current_interval in
    if is_after row.blocked_until now
    then (some row.current_interval, t)
    else (if too_fast row now then some reread else none, after)

pub data PollState : Type 0 where
  invalid already_consumed was_denied has_expired is_waiting raised : PollState
  slow_down : (interval : ℕ) → PollState
  granted : (raw : String) (user_id : ℕ) → PollState

-- What a poll that lost the claim answers from the row as it stands.
abbrev pub after_lost : Option AgentDeviceCode → ℕ → PollState
after_lost none now = raised
after_lost (some c) now =
    if not (is_null_time c.consumed_at)
    then already_consumed
    else if is_denied c.status
    then was_denied
    else if leb c.expires_at now
    then has_expired
    else is_waiting

module _ (hash sha : String → String) where
  abbrev pub claim_state : ℕ → ℕ → ℕ → Claim × AuthTables → PollState × AuthTables
  claim_state id user_id now (claimed raw, b) = (granted raw user_id, b)
  claim_state id user_id now (integrity_error, b) = (raised, b)
  claim_state id user_id now (lost, b) = (after_lost (find? (by_code_id id) b.codes) now, b)

  -- Step 5, on the row as it stands after the throttle.
  unfoldable pub poll_claim : ℕ → ℕ → String → String → ℕ → AuthTables → PollState × AuthTables
  poll_claim id ttl_days raw again now b = elim (find? (by_code_id id) b.codes) [
    | none ↦ (raised, b)
    | some row ↦ if is_pending row.status then (is_waiting, b) else elim row.user_id [
      | none ↦ (raised, b)
      | some user_id ↦
          claim_state id user_id now
            (claim_and_issue_device_token hash id user_id ttl_days raw now again now b)
    ]
  ]

  abbrev pub slowed_or : Option ℕ → AuthTables → PollState × AuthTables → PollState × AuthTables
  slowed_or none b passed = passed
  slowed_or (some interval) b passed = (slow_down interval, b)

  unfoldable pub poll_device_token :
      String → String → ℕ → String → String → ℕ → AuthTables → PollState × AuthTables
  unfolding poll_claim
  poll_device_token device_code code_verifier ttl_days raw again now b =
      elim (find? (λ c. str_eq c.device_code_hash (sha device_code)) b.codes) [
        | none ↦ (invalid, b)
        | some row ↦
            if not (str_eq (sha code_verifier) row.code_challenge)
            then (invalid, b)
            else if not (is_null_time row.consumed_at)
            then (already_consumed, b)
            else if is_denied row.status
            then (was_denied, b)
            else if leb row.expires_at now
            then (has_expired, b)
            else let (answer, codes) = apply_poll_throttle row now b.codes in
              let written : AuthTables = record b { codes = codes } in
              slowed_or answer written (poll_claim row.id ttl_days raw again now written)
      ]
