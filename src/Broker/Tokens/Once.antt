-- ===== src/Broker/Tokens/Once.antt =====
-- How often a token is claimed, whatever else happens to the table.
use quanquant.Base.{
  ℕ, ◌+◌, ◌≤◌, ◌≡◌, ◌≢◌, refl, Bool, true, false, ◌&&◌, none, some, List, [], ◌∷◌, ◌++◌, String,
  arith, ◌==◌, ==_iff, str_eq, str_eq_iff, if◌then◌else◌, count_where, count_where-append, find?,
  str_eq_refl, Option-cases, Bool-cases, inl, inr, All,
}
use quanquant.Broker.Tokens.{
  ConfirmToken, Tokens, token_row, create_confirm_token_row, claim_confirm_token, claimable,
  not_consumed, cleanup_expired_confirm_tokens,
}

pub data TokenCall : Type 0 where
  issue : (jti : String) (actor : ℕ) (payload_hash : String) (expires_at : ℕ) → TokenCall
  claim : (jti : String) (actor : ℕ) (payload_hash : String) (now : ℕ) → TokenCall
  cleanup : (now : ℕ) → TokenCall

unfoldable pub call : TokenCall → Tokens → Bool × Tokens
call (issue jti a h e) t = (true, create_confirm_token_row jti a h e t)
call (claim jti a h now) t = claim_confirm_token jti a h now t
call (cleanup now) t = (true, (cleanup_expired_confirm_tokens now t).1)

-- Whether the call claims the token `jti`.
abbrev pub claims : String → TokenCall → Bool
claims jti (claim j _ _ _) = str_eq j jti
claims jti _ = false

-- How many of the calls claimed the token with success.
unfoldable pub successes : String → List TokenCall → Tokens → ℕ
successes jti [] t = 0
successes jti (c ∷ cs) t =
    (if claims jti c && (call c t).0 then 1 else 0) + successes jti cs (call c t).1

-- The call issues no token of that id.
abbrev pub IsOther : String → TokenCall → Type 0
IsOther jti (issue j _ _ _) = j ≢ jti
IsOther jti _ = Unit

-- A row of the id that is not consumed.
abbrev pub fresh_of : String → ConfirmToken → Bool
fresh_of jti k = str_eq k.jti jti && not_consumed k

pub fresh-claim :
    (j : String) (a : ℕ) (h : String) (now : ℕ) (jti : String) (t : Tokens)
    → count_where (fresh_of jti) (claim_confirm_token j a h now t).1 ≤ count_where (fresh_of jti) t
unfolding claim_confirm_token
fresh-claim j a h now jti [] = omega arith
fresh-claim j a h now jti (k ∷ t) = ground (arith, fresh-claim j a h now jti t)

claimable-le :
    (a : ℕ) (h : String) (now : ℕ) (jti : String) (t : Tokens)
    → count_where (claimable jti a h now) t ≤ count_where (fresh_of jti) t
claimable-le a h now jti [] = omega arith
claimable-le a h now jti (k ∷ t) = ground (arith, claimable-le a h now jti t)

-- What a claim consumes is gone from the fresh rows.
fresh-claimed :
    (a : ℕ) (h : String) (now : ℕ) (jti : String) (t : Tokens)
    → count_where (fresh_of jti) (claim_confirm_token jti a h now t).1
        + count_where (claimable jti a h now) t
      ≡ count_where (fresh_of jti) t
unfolding claim_confirm_token
fresh-claimed a h now jti [] = refl
fresh-claimed a h now jti (k ∷ t) = ground (arith, fresh-claimed a h now jti t)

fresh-cleanup :
    (now : ℕ) (jti : String) (t : Tokens)
    → count_where (fresh_of jti) (cleanup_expired_confirm_tokens now t).1
      ≤ count_where (fresh_of jti) t
unfolding cleanup_expired_confirm_tokens
fresh-cleanup now jti [] = omega arith
fresh-cleanup now jti (k ∷ t) = ground (arith, fresh-cleanup now jti t)

pub fresh-call :
    (c : TokenCall) (jti : String) (t : Tokens)
    → IsOther jti c
    → count_where (fresh_of jti) (call c t).1 ≤ count_where (fresh_of jti) t
unfolding call create_confirm_token_row
fresh-call (issue j a h e) jti t other =
    ground (arith, count_where-append (fresh_of jti) t (token_row j a h e ∷ []), str_eq_iff j jti)
fresh-call (claim j a h now) jti t other = fresh-claim j a h now jti t
fresh-call (cleanup now) jti t other = fresh-cleanup now jti t

pub claim_spends :
    (a : ℕ) (h : String) (now : ℕ) (jti : String) (t : Tokens)
    → (if (claim_confirm_token jti a h now t).0 then 1 else 0)
        + count_where (fresh_of jti) (claim_confirm_token jti a h now t).1
      ≤ count_where (fresh_of jti) t
claim_spends a h now jti t =
    let gone = fresh-claimed a h now jti t in
    let answer : (claim_confirm_token jti a h now t).0
        ≡ (count_where (claimable jti a h now) t == 1) =
      unfold claim_confirm_token in refl in
    rw answer (ground arith)

-- A call that claims the token with success uses up a fresh row.
spent :
    (c : TokenCall) (jti : String) (t : Tokens)
    → IsOther jti c
    → (if claims jti c && (call c t).0 then 1 else 0) + count_where (fresh_of jti) (call c t).1
      ≤ count_where (fresh_of jti) t
unfolding call
spent (issue j a h e) jti t other = omega (arith, fresh-call (issue j a h e) jti t other)
spent (claim j a h now) jti t other = elim (Bool-cases (str_eq j jti)) [
  | inl same ↦ rw ((str_eq_iff j jti).0 same, str_eq_refl) (claim_spends a h now jti t)
  | inr differs ↦ rw differs (omega (arith, fresh-claim j a h now jti t))
]
spent (cleanup now) jti t other = omega (arith, fresh-cleanup now jti t)

successes-le_fresh :
    (jti : String) (calls : List TokenCall) (t : Tokens)
    → All (IsOther jti) calls
    → successes jti calls t ≤ count_where (fresh_of jti) t
unfolding successes
successes-le_fresh jti [] t other = omega arith
successes-le_fresh jti (c ∷ cs) t (o, other) =
    omega (arith, spent c jti t o, successes-le_fresh jti cs (call c t).1 other)

pub none_fresh :
    (jti : String) (t : Tokens)
    → find? (λ k. str_eq k.jti jti) t ≡ none
    → count_where (fresh_of jti) t ≡ 0
none_fresh jti [] e = refl
none_fresh jti (k ∷ t) e = ground (arith, none_fresh jti t)

-- A token that is issued under a new id, and under that id only once, is claimed with success at
-- most once in any sequence of issues, claims by anyone and cleanups that follows.
successes-le :
    (jti : String) (actor : ℕ) (payload_hash : String) (expires_at : ℕ) (calls : List TokenCall)
    (t : Tokens)
    → find? (λ k. str_eq k.jti jti) t ≡ none
    → All (IsOther jti) calls
    → successes jti calls (create_confirm_token_row jti actor payload_hash expires_at t) ≤ 1
unfolding create_confirm_token_row
successes-le jti actor payload_hash expires_at calls t unused other =
    let row = token_row jti actor payload_hash expires_at in
    let mine : fresh_of jti row ≡ true = rw str_eq_refl in
    omega (
      arith,
      successes-le_fresh jti calls (t ++ row ∷ []) other,
      none_fresh jti t unused,
      rw mine at (count_where-append (fresh_of jti) t (row ∷ [])),
    )

-- A claim succeeds only on a row of its own id, actor and payload that is neither consumed nor over.
pub claim-matches :
    (jti : String) (actor : ℕ) (payload_hash : String) (now : ℕ) (t : Tokens)
    → (claim_confirm_token jti actor payload_hash now t).0 ≡ true
    → (k : ConfirmToken) × (find? (claimable jti actor payload_hash now) t ≡ some k)
unfolding claim_confirm_token
claim-matches jti actor payload_hash now t h =
    elim (Option-cases (find? (claimable jti actor payload_hash now) t)) [
      | inl missing ↦ absurd (found_none t missing ((==_iff _ 1).0 h))
      | inr hit ↦ hit
    ]
  where
    found_none :
        (s : Tokens)
        → find? (claimable jti actor payload_hash now) s ≡ none
        → count_where (claimable jti actor payload_hash now) s ≡ 1
        → ⊥
    found_none [] e c = absurd (omega arith)
    found_none (k ∷ s) e c = ground (arith, found_none s)
