-- ===== src/Broker/Tokens.antt =====
-- Confirmation tokens (quanquant/broker/repository.py, `create_confirm_token_row` to
-- `cleanup_expired_confirm_tokens`; the row is `ConfirmToken` of quanquant/db/models.py): a row is
-- consumed by one guarded update.
pub mod Once
mod Tests
use quanquant.Base.{
  ℕ, String, Bool, true, false, ◌&&◌, ◌||◌, not, Option, none, some, List, [], ◌∷◌, ◌++◌, ltb, ◌==◌,
  str_eq, select, update_where, count_where,
}

pub record ConfirmToken : Type 0 where
  pub jti : String
  pub actor_user_id : ℕ
  pub payload_hash : String
  pub expires_at : ℕ
  pub consumed_at : Option ℕ

abbrev pub Tokens : Type 0
Tokens = List ConfirmToken

abbrev pub token_row : String → ℕ → String → ℕ → ConfirmToken
token_row jti actor_user_id payload_hash expires_at = record {
  jti = jti;
  actor_user_id = actor_user_id;
  payload_hash = payload_hash;
  expires_at = expires_at;
  consumed_at = none;
}

unfoldable pub create_confirm_token_row : String → ℕ → String → ℕ → Tokens → Tokens
create_confirm_token_row jti actor_user_id payload_hash expires_at t =
    t ++ token_row jti actor_user_id payload_hash expires_at ∷ []

abbrev pub not_consumed : ConfirmToken → Bool
not_consumed k = elim k.consumed_at [ none ↦ true | some _ ↦ false ]

abbrev pub claimable : String → ℕ → String → ℕ → ConfirmToken → Bool
claimable jti actor_user_id payload_hash now k =
    (str_eq k.jti jti && k.actor_user_id == actor_user_id)
    && (str_eq k.payload_hash payload_hash && (not_consumed k && ltb now k.expires_at))

abbrev pub consumed : ℕ → ConfirmToken → ConfirmToken
consumed now k = record k { consumed_at = some now }

unfoldable pub claim_confirm_token : String → ℕ → String → ℕ → Tokens → Bool × Tokens
claim_confirm_token jti actor_user_id payload_hash now t = (
  count_where (claimable jti actor_user_id payload_hash now) t == 1,
  update_where (claimable jti actor_user_id payload_hash now) (consumed now) t,
)

-- `expires_at < now or consumed_at is not null`
abbrev pub is_garbage : ℕ → ConfirmToken → Bool
is_garbage now k = ltb k.expires_at now || not (not_consumed k)

unfoldable pub cleanup_expired_confirm_tokens : ℕ → Tokens → ℕ × Tokens
cleanup_expired_confirm_tokens now t =
    (count_where (is_garbage now) t, select (λ k. not (is_garbage now k)) t)
