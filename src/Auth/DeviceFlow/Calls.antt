-- ===== src/Auth/DeviceFlow/Calls.antt =====
-- The writes of the flow as calls, and what a sequence of them leaves and gives out.
use quanquant.Base.{
  ℕ, ◌+◌, String, Bool, true, false, ◌&&◌, not, Option, none, some, List, [], ◌∷◌, ◌==◌,
  if◌then◌else◌,
}
use quanquant.Auth.AgentTokens.{AgentTokens, issue_token, validate_token}
use quanquant.Auth.DeviceFlow.{
  AgentDeviceCode, DeviceCodes, NewCode, create_device_code, approve_device_code, deny_device_code,
  claim_and_issue_device_token, Claim, claimed, AuthTables, apply_poll_throttle,
}

-- The writes of the flow, each one transaction. A poll is a throttle, with a row that may have been
-- read before others wrote it, and then a claim; any interleaving of polls is a sequence of these.
pub data FlowCall : Type 0 where
  requested : (a b c : NewCode) (request_ip code_challenge : String) (now : ℕ) → FlowCall
  approved_for : (user_code : String) (user_id now : ℕ) → FlowCall
  denied_for : (user_code : String) (now : ℕ) → FlowCall
  polled : (row : AgentDeviceCode) (now : ℕ) → FlowCall
  claims :
      (id user_id ttl_days : ℕ) (raw : String) (now : ℕ) (again : String) (later : ℕ) → FlowCall
  issued : (user_id ttl_days : ℕ) (raw again : String) (now : ℕ) → FlowCall
  validated : (raw : String) (now : ℕ) → FlowCall

abbrev pub codes_if : Option (NewCode × DeviceCodes) → AuthTables → AuthTables
codes_if none b = b
codes_if (some (n, t)) b = record b { codes = t }

abbrev pub tokens_if : Option (String × AgentTokens) → AuthTables → AuthTables
tokens_if none b = b
tokens_if (some (raw, t)) b = record b { tokens = t }

abbrev pub is_claimed : Claim → Bool
is_claimed (claimed raw) = true
is_claimed _ = false

module _ (hash : String → String) where
  unfoldable pub flow_call : FlowCall → AuthTables → AuthTables
  flow_call (requested x y z ip challenge now) b =
      codes_if (create_device_code x y z ip challenge now b.codes) b
  flow_call (approved_for code user now) b = record b {
    codes = (approve_device_code code user now b.codes).1;
  }
  flow_call (denied_for code now) b = record b { codes = (deny_device_code code now b.codes).1 }
  flow_call (polled row now) b = record b { codes = (apply_poll_throttle row now b.codes).1 }
  flow_call (claims id user ttl raw now again later) b =
      (claim_and_issue_device_token hash id user ttl raw now again later b).1
  flow_call (issued user ttl raw again now) b =
      tokens_if (issue_token hash user ttl raw again now b.tokens) b
  flow_call (validated raw now) b = record b { tokens = (validate_token hash raw now b.tokens).1 }

  unfoldable pub flow_calls : List FlowCall → AuthTables → AuthTables
  flow_calls [] b = b
  flow_calls (c ∷ cs) b = flow_calls cs (flow_call c b)

  -- Whether the call hands out a token for the code `code_id`.
  abbrev pub grants : ℕ → FlowCall → AuthTables → Bool
  grants code_id (claims id user ttl raw now again later) b =
      id == code_id
      && is_claimed (claim_and_issue_device_token hash id user ttl raw now again later b).0
  grants code_id _ b = false

  unfoldable pub grants_of : ℕ → List FlowCall → AuthTables → ℕ
  grants_of code_id [] b = 0
  grants_of code_id (c ∷ cs) b =
      (if grants code_id c b then 1 else 0) + grants_of code_id cs (flow_call c b)

-- Whether the database gives the id to no new code.
abbrev pub gives_no : ℕ → FlowCall → Bool
gives_no id (requested x y z ip challenge now) =
    not (x.id == id) && (not (y.id == id) && not (z.id == id))
gives_no id _ = true

abbrev pub give_no : ℕ → List FlowCall → Bool
give_no id [] = true
give_no id (c ∷ cs) = gives_no id c && give_no id cs
