-- ===== src/Auth/DeviceFlow/Tests.antt =====
-- Runs of the device flow, and the theorems at them.
use quanquant.Base.{ℕ, ◌≤◌, ◌≡◌, refl, arith, String, List, [], ◌∷◌, find?, str_eq}
use Prim.Native.String.{◌++◌ as str_append}
use quanquant.Auth.AgentTokens.{issue_token, commit_rotation, stage_rotation, validate_token}
use quanquant.Auth.AgentTokens.Single.{IsSingle}
use quanquant.Auth.DeviceFlow.{
  AgentDeviceCode, NewCode, device_code, approved_by, AuthTables, create_device_code,
  create_attempts, approve_device_code, deny_device_code, apply_poll_throttle, throttled, too_fast,
  claim_and_issue_device_token, poll_device_token, poll_claim, slow_down, granted, already_consumed,
}
use quanquant.Auth.DeviceFlow.Calls.{
  FlowCall, requested, approved_for, denied_for, polled, claims, issued, validated, flow_call,
  flow_calls, grants_of,
}
use quanquant.Auth.DeviceFlow.Granted.{Entitled, granted_only}
use quanquant.Auth.DeviceFlow.Claims.{grants_of-le}
use quanquant.Auth.DeviceFlow.Rotation.{flow_calls-IsSingle}
use quanquant.Auth.DeviceFlow.Throttle.{IsPaced, AllPaced, flow_calls-paced}

abbrev hashed : String → String
hashed s = str_append "#" s

abbrev drawn : ℕ → String → String → NewCode
drawn id code user_code = record { id = id; device_code_hash = hashed code; user_code = user_code }

abbrev code : AgentDeviceCode
code = device_code (drawn 1 "d1" "AAAA-BBBB") "10.0.0.1" (hashed "v1") 0

abbrev before : AuthTables
before = record { codes = code ∷ []; tokens = [] }

-- Two polls race for one approved code, and the user issues a token by hand in between.
abbrev flow : List FlowCall
flow =
    requested (drawn 2 "d1" "X") (drawn 3 "d3" "AAAA-BBBB") (drawn 4 "d4" "CCCC-DDDD") "10.0.0.2"
      "c" 1
    ∷ approved_for "AAAA-BBBB" 7 1000
    ∷ denied_for "AAAA-BBBB" 1001
    ∷ polled code 2000
    ∷ polled code 2001
    ∷ claims 1 7 30 "t1" 2002 "t2" 2002
    ∷ issued 7 30 "t1" "t3" 2003
    ∷ claims 1 7 30 "t4" 2004 "t5" 2004
    ∷ validated "t3" 2005
    ∷ []

grants-flow : grants_of hashed 1 flow before ≡ 1
unfolding grants_of flow_call create_device_code create_attempts approve_device_code
    deny_device_code apply_poll_throttle throttled too_fast claim_and_issue_device_token
    commit_rotation stage_rotation issue_token validate_token
grants-flow = refl

grants_of-le_example : grants_of hashed 1 flow before ≤ 1
grants_of-le_example = grants_of-le hashed 1 flow before (omega arith) refl

before-IsSingle : IsSingle before.tokens
unfolding IsSingle
before-IsSingle u = omega arith

flow_calls-IsSingle_example : IsSingle (flow_calls hashed flow before).tokens
flow_calls-IsSingle_example = flow_calls-IsSingle hashed flow before before-IsSingle

code-IsPaced : IsPaced code
unfolding IsPaced
code-IsPaced = omega arith

flow_calls-paced_example : AllPaced (flow_calls hashed flow before).codes
flow_calls-paced_example =
    flow_calls-paced hashed flow before
      (tt, (tt, (tt, (code-IsPaced, (code-IsPaced, (tt, (tt, (tt, (tt, tt)))))))))
      (code-IsPaced, tt)

-- A poll of the approved code gets its token, and a second one is told so.
abbrev approved_code : AuthTables
approved_code = record { codes = approved_by 7 code ∷ []; tokens = [] }

poll_granted :
    (poll_device_token hashed hashed "d1" "v1" 30 "t1" "t2" 6000 approved_code).0 ≡ granted "t1" 7
unfolding poll_device_token poll_claim apply_poll_throttle throttled too_fast
    claim_and_issue_device_token commit_rotation stage_rotation
poll_granted = refl

granted_only_example :
    Entitled hashed "v1" 6000 7 approved_code.codes
      (find? (λ c. str_eq c.device_code_hash (hashed "d1")) approved_code.codes)
granted_only_example =
    granted_only hashed hashed "d1" "v1" 30 "t1" "t2" 6000 approved_code "t1" 7 poll_granted

poll_again :
    let (first, after) =
      poll_device_token hashed hashed "d1" "v1" 30 "t1" "t2" 6000 approved_code in
    (poll_device_token hashed hashed "d1" "v1" 30 "t3" "t4" 12000 after).0 ≡ already_consumed
unfolding poll_device_token poll_claim apply_poll_throttle throttled too_fast
    claim_and_issue_device_token commit_rotation stage_rotation
poll_again = refl

poll_fast :
    let (first, after) = poll_device_token hashed hashed "d1" "v1" 30 "t1" "t2" 6000 before in
    (poll_device_token hashed hashed "d1" "v1" 30 "t3" "t4" 7000 after).0 ≡ slow_down 10
unfolding poll_device_token poll_claim apply_poll_throttle throttled too_fast
    claim_and_issue_device_token commit_rotation stage_rotation
poll_fast = refl
