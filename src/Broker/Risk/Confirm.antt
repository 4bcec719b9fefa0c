-- ===== src/Broker/Risk/Confirm.antt =====
-- The two-phase confirmation of the guard: what a token opens.
use quanquant.Base.{
  ℕ, ◌+◌, ◌≤◌, ◌≡◌, ◌≢◌, refl, Bool, true, false, ◌&&◌, Option, none, some, List, [], ◌∷◌, String,
  arith, str_eq, str_eq_iff, str_eq_refl, if◌then◌else◌, Option-cases, Bool-cases, inl, inr, find?,
  count_where, count_where-append, All, ltb, ◌==◌,
}
use quanquant.Broker.Types.{Mode, real, sim, is_real}
use quanquant.Broker.Tokens.{
  Tokens, token_row, claimable, claim_confirm_token, create_confirm_token_row,
}
use quanquant.Broker.Tokens.Once.{
  call, issue as issue_token, fresh_of, fresh-claim, fresh-call, claim_spends, none_fresh,
}
use quanquant.Broker.Orders.{Order}
use quanquant.Broker.Risk.{
  RiskGuard, KillSwitchState, Checked, passed, refused, value_error, Db, TokenData, PlaceCall,
  UpdateCall, claim_token, confirmed, check_place, check_update, is_owner, issue_confirm_token,
}
use quanquant.Broker.Risk.Effects.{
  PlaceEnds, UpdateEnds, check_place-PlaceEnds, check_update-UpdateEnds, issue_confirm_token-ends,
}
use quanquant.Broker.Risk.Limits.{GuardCall, place, update, issue, confirm, release, guarded_call}

count_where-claimable :
    (jti : String) (a : ℕ) (h : String) (now : ℕ) (t : Tokens)
    → find? (λ k. str_eq k.jti jti) t ≡ none
    → count_where (claimable jti a h now) t ≡ 0
count_where-claimable jti a h now [] e = refl
count_where-claimable jti a h now (k ∷ t) e = ground (arith, count_where-claimable jti a h now t)

abbrev is_passed : {A : Type 0} → Checked A → Bool
is_passed (passed _) = true
is_passed _ = false

-- Whether a real call brings the token `tok`.
abbrev brings : String → Mode → Option String → Bool
brings tok mode none = false
brings tok mode (some s) = is_real mode && str_eq s tok

-- The call does not issue a token under that id.
abbrev pub IssuesOther : String → GuardCall → Type 0
IssuesOther jti (issue j _ _ _) = j ≢ jti
IssuesOther jti _ = Unit

module _ (loads : ℕ → String → Option TokenData) (day_for : ℕ → String) (g : RiskGuard) where
  -- Whether the call passes as a real one with that token.
  abbrev pub passes_with : String → GuardCall → Db → Bool
  passes_with tok (place k c) db =
      brings tok c.mode c.confirm_token && is_passed (check_place loads day_for g k c db).0
  passes_with tok (update k c) db =
      brings tok c.order.mode c.confirm_token && is_passed (check_update loads g k c db).0
  passes_with tok _ db = false

  -- How many calls of a sequence do.
  unfoldable pub passes : String → List GuardCall → Db → ℕ
  passes tok [] db = 0
  passes tok (c ∷ cs) db =
      (if passes_with tok c db then 1 else 0) + passes tok cs (guarded_call loads day_for g c db)

issued-le :
    (g : RiskGuard) (jti : String) (a : ℕ) (h : String) (now : ℕ) (db : Db)
    → find? (λ k. str_eq k.jti jti) db.tokens ≡ none
    → count_where (fresh_of jti) (issue_confirm_token g jti a h now db).1.tokens ≤ 1
unfolding create_confirm_token_row
issued-le g jti a h now db unused =
    let row = token_row jti a h (now + g.confirm_token_ttl_ms) in
    let clear = none_fresh jti db.tokens unused in
    let mine : fresh_of jti row ≡ true = rw str_eq_refl in
    let sum = rw (mine, clear) at (count_where-append (fresh_of jti) db.tokens (row ∷ [])) in
    elim (issue_confirm_token-ends g jti a h now db) [
      | inr (_, e) ↦ rw e (omega (arith, clear))
      | inl (_, e) ↦ rw e (omega (arith, sum))
    ]

module _ (loads : ℕ → String → Option TokenData) (tok jti : String)
    (carries : (now : ℕ) (d : TokenData) → loads now tok ≡ some d → d.jti ≡ jti) where
  opened_spends :
      (a : ℕ) (h : String) (s : String) (d : TokenData) (now : ℕ) (t : Tokens)
      → loads now s ≡ some d
      → (if str_eq s tok && (claim_confirm_token d.jti a h now t).0 then 1 else 0)
          + count_where (fresh_of jti) (claim_confirm_token d.jti a h now t).1
        ≤ count_where (fresh_of jti) t
  opened_spends a h s d now t e = elim (Bool-cases (str_eq s tok)) [
    | inl same ↦
        let opened : loads now tok ≡ some d = rw (← (str_eq_iff s tok).0 same) e in
        rw (same, carries now d opened) (claim_spends a h now jti t)
    | inr differs ↦ rw differs (omega (arith, fresh-claim d.jti a h now jti t))
  ]

  claim_token-spends :
      (a : ℕ) (h : String) (s : String) (now : ℕ) (t : Tokens)
      → (if str_eq s tok && (claim_token loads a h (some s) now t).0 then 1 else 0)
          + count_where (fresh_of jti) (claim_token loads a h (some s) now t).1
        ≤ count_where (fresh_of jti) t
  unfolding claim_token
  claim_token-spends a h s now t = elim (Option-cases (loads now s)) [
    | inl e ↦ rw e (ground arith)
    | inr (d, e) ↦ rw e (ground (arith, opened_spends a h s d now t e))
  ]

  confirmed-spends :
      (m : Mode) (a : ℕ) (h : String) (s : Option String) (now : ℕ) (t : Tokens)
      → (if brings tok m s && (confirmed loads m a h s now t).0 then 1 else 0)
          + count_where (fresh_of jti) (confirmed loads m a h s now t).1
        ≤ count_where (fresh_of jti) t
  unfolding confirmed claim_token
  confirmed-spends sim a h none now t = omega arith
  confirmed-spends sim a h (some s) now t = omega arith
  confirmed-spends real a h none now t = omega arith
  confirmed-spends real a h (some s) now t = claim_token-spends a h s now t

  module _ (day_for : ℕ → String) (g : RiskGuard) where
    place_spends :
        (k : KillSwitchState) (c : PlaceCall) (db : Db) (r : Checked Order × Db)
        → PlaceEnds loads g k c (day_for c.now) db r
        → (if brings tok c.mode c.confirm_token && is_passed r.0 then 1 else 0)
            + count_where (fresh_of jti) r.1.tokens
          ≤ count_where (fresh_of jti) db.tokens
    place_spends k c db (passed o, db') (may, placed) =
        rw placed.claimed at
          (confirmed-spends c.mode c.actor_user_id c.request_hash c.confirm_token c.now db.tokens)
    place_spends k c db (refused r, db') e = rw e (ground arith)
    place_spends k c db (value_error, db') (e, _) = rw e (ground arith)

    update_spends :
        (k : KillSwitchState) (c : UpdateCall) (db : Db) (r : Checked (Unit {0}) × Db)
        → UpdateEnds loads g k c db r
        → (if brings tok c.order.mode c.confirm_token && is_passed r.0 then 1 else 0)
            + count_where (fresh_of jti) r.1.tokens
          ≤ count_where (fresh_of jti) db.tokens
    update_spends k c db (passed _, db') (may, done) = rw done.claimed at (
        confirmed-spends c.order.mode c.actor_user_id c.request_hash c.confirm_token c.now
          db.tokens)
    update_spends k c db (refused r, db') e = rw e (ground arith)
    update_spends k c db (value_error, db') e = absurd e

    issue_keeps :
        (j : String) (a : ℕ) (h : String) (now : ℕ) (db : Db)
        → j ≢ jti
        → count_where (fresh_of jti) (issue_confirm_token g j a h now db).1.tokens
          ≤ count_where (fresh_of jti) db.tokens
    unfolding create_confirm_token_row call
    issue_keeps j a h now db other = elim (issue_confirm_token-ends g j a h now db) [
      | inr (_, e) ↦ rw e (omega arith)
      | inl (_, e) ↦
          rw e (fresh-call (issue_token j a h (now + g.confirm_token_ttl_ms)) jti db.tokens other)
    ]

    call_spends :
        (c : GuardCall) (db : Db)
        → IssuesOther jti c
        → (if passes_with loads day_for g tok c db then 1 else 0)
            + count_where (fresh_of jti) (guarded_call loads day_for g c db).tokens
          ≤ count_where (fresh_of jti) db.tokens
    unfolding guarded_call
    call_spends (place k c) db other =
        place_spends k c db _ (check_place-PlaceEnds loads g k day_for c db)
    call_spends (update k c) db other =
        update_spends k c db _ (check_update-UpdateEnds loads g k c db)
    call_spends (issue j a h now) db other = omega (arith, issue_keeps j a h now db other)
    call_spends (confirm id) db other = omega arith
    call_spends (release id) db other = omega arith

    passes-le_fresh :
        (calls : List GuardCall) (db : Db)
        → All (IssuesOther jti) calls
        → passes loads day_for g tok calls db ≤ count_where (fresh_of jti) db.tokens
    unfolding passes
    passes-le_fresh [] db other = omega arith
    passes-le_fresh (c ∷ cs) db (o, other) =
        omega
          (arith, call_spends c db o, passes-le_fresh cs (guarded_call loads day_for g c db) other)

    -- A text that only ever opens as the token `jti` lets at most one real placement or change pass,
    -- in any sequence of calls by anyone that issues no second token under that id.
    pub passes-le :
        (actor : ℕ) (payload_hash : String) (now : ℕ) (calls : List GuardCall) (db : Db)
        → find? (λ k. str_eq k.jti jti) db.tokens ≡ none
        → All (IssuesOther jti) calls
        → passes loads day_for g tok calls (issue_confirm_token g jti actor payload_hash now db).1
          ≤ 1
    passes-le actor h now calls db unused other =
        let start = (issue_confirm_token g jti actor h now db).1 in
        omega (arith, passes-le_fresh calls start other, issued-le g jti actor h now db unused)

-- Right after an owner got a token, its text is accepted in place of a confirmation exactly for that
-- user, for that payload and before the token is over.
pub claim_token-issue_confirm_token :
    (loads : ℕ → String → Option TokenData) (g : RiskGuard) (tok jti : String) (actor : ℕ)
    (payload_hash : String) (now : ℕ) (db : Db) (actor' : ℕ) (payload_hash' : String) (now' : ℕ)
    → tok ≢ ""
    → loads now' tok
      ≡ some (record { jti = jti; actor_user_id = actor; payload_hash = payload_hash })
    → is_owner g actor ≡ true
    → find? (λ k. str_eq k.jti jti) db.tokens ≡ none
    → (claim_token loads actor' payload_hash'
        (some tok)
        now'
        (issue_confirm_token g jti actor payload_hash now db).1.tokens).0
      ≡ ((actor == actor') && str_eq payload_hash payload_hash')
        && ltb now' (now + g.confirm_token_ttl_ms)
unfolding claim_token issue_confirm_token create_confirm_token_row claim_confirm_token
claim_token-issue_confirm_token loads g tok jti actor payload_hash now db actor' payload_hash' now'
      solid opens owner unused =
    let row = token_row jti actor payload_hash (now + g.confirm_token_ttl_ms) in
    let clear = count_where-claimable jti actor' payload_hash' now' db.tokens unused in
    let sum =
      rw clear at
        (count_where-append (claimable jti actor' payload_hash' now') db.tokens (row ∷ [])) in
    let there : str_eq tok "" ≡ false = ground (arith, str_eq_iff tok "") in
    let same : str_eq jti jti ≡ true = rw str_eq_refl in
    rw (owner, there, opens) (ground (arith, sum, same))
