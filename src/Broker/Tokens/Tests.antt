-- ===== src/Broker/Tokens/Tests.antt =====
-- Runs of the confirmation tokens, and the theorems at them.
use quanquant.Base.{◌≡◌, ◌≢◌, refl, List, [], ◌∷◌, arith, String, str_eq_iff}
use quanquant.Broker.Tokens.{
  create_confirm_token_row, claim_confirm_token, cleanup_expired_confirm_tokens,
}
use quanquant.Broker.Tokens.Once.{TokenCall, issue, claim, cleanup, call, successes}

-- Three claims of one token: of another payload, the good one, and a replay.
abbrev tries : List TokenCall
tries =
    issue "k" 2 "h" 90
    ∷ claim "j" 1 "other" 20
    ∷ claim "j" 1 "h" 21
    ∷ claim "j" 1 "h" 22
    ∷ cleanup 23
    ∷ []

successes-tries : successes "j" tries (create_confirm_token_row "j" 1 "h" 100 []) ≡ 1
unfolding successes call create_confirm_token_row claim_confirm_token cleanup_expired_confirm_tokens
successes-tries = refl

k_not_j : ◌≢◌ {A = String} "k" "j"
k_not_j = ground (arith, str_eq_iff "k" "j")
