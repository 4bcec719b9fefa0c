-- ===== src/Broker/Quota.antt =====
-- Quota reservations (quanquant/broker/repository.py, `reserve_quota` to `quota_used_today`): a
-- table of reservations, each with its own state. The used quota of a day is the sum over the
-- active rows. Each function is one statement or one transaction on the table, so an interleaving
-- of clients is a sequence of calls.
pub mod Laws
pub mod Settling
pub mod Runs
mod Tests
use quanquant.Base.{
  ℕ, ◌+◌, String, Bool, true, false, ◌&&◌, Option, none, some, List, [], ◌∷◌, ◌++◌, leb, ◌==◌,
  str_eq, if◌then◌else◌, find?, select, update_where, count_where, sum_where,
}
use quanquant.Broker.Types.{Mode, mode_eq}

pub data QuotaState : Type 0 where
  reserved confirmed released : QuotaState

pub record QuotaReservation : Type 0 where
  pub reservation_id : String
  pub user_id : ℕ
  pub mode : Mode
  pub trading_day : String
  pub qty : ℕ
  pub state : QuotaState

abbrev pub Quotas : Type 0
Quotas = List QuotaReservation

-- `state in _ACTIVE_QUOTA_STATES`
abbrev pub active_state : QuotaState → Bool
active_state reserved = true
active_state confirmed = true
active_state released = false

abbrev pub is_reserved : QuotaState → Bool
is_reserved reserved = true
is_reserved _ = false

abbrev pub by_id : String → QuotaReservation → Bool
by_id id r = str_eq r.reservation_id id

-- The rows that `quota_used_today` and the subquery `used` of `reserve_quota` add up.
abbrev pub counts_for : ℕ → Mode → String → QuotaReservation → Bool
counts_for user_id mode trading_day r =
    (r.user_id == user_id && mode_eq r.mode mode)
    && (str_eq r.trading_day trading_day && active_state r.state)

unfoldable pub quota_used_today : ℕ → Mode → String → Quotas → ℕ
quota_used_today user_id mode trading_day =
    sum_where (counts_for user_id mode trading_day) (λ r. r.qty)

-- The existing reservation answers for a replay of its id; else a row goes in if it fits.
unfoldable pub reserve_quota : String → ℕ → Mode → String → ℕ → ℕ → Quotas → Bool × Quotas
unfolding quota_used_today
reserve_quota reservation_id user_id mode trading_day qty daily_limit t =
    elim (find? (by_id reservation_id) t) [
      | some existing ↦ (active_state existing.state, t)
      | none ↦
          if leb (quota_used_today user_id mode trading_day t + qty) daily_limit
          then (
            true,
            t
                ++ record {
                  reservation_id = reservation_id;
                  user_id = user_id;
                  mode = mode;
                  trading_day = trading_day;
                  qty = qty;
                  state = reserved;
                }
                  ∷ [],
          )
          else (false, t)
    ]

-- `where reservation_id = ? and state = 'reserved'`
abbrev pub open_by_id : String → QuotaReservation → Bool
open_by_id id r = by_id id r && is_reserved r.state

abbrev pub set_state : QuotaState → QuotaReservation → QuotaReservation
set_state s r = record r { state = s }

-- The `update` that `confirm_quota` and `release_quota` share, and its `rowcount == 1`.
unfoldable pub settle : QuotaState → String → Quotas → Bool × Quotas
settle s id t = (count_where (open_by_id id) t == 1, update_where (open_by_id id) (set_state s) t)

unfoldable pub confirm_quota : String → Quotas → Bool × Quotas
confirm_quota = settle confirmed

unfoldable pub release_quota : String → Quotas → Bool × Quotas
release_quota = settle released
