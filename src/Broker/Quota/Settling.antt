-- ===== src/Broker/Quota/Settling.antt =====
-- How often a reservation is settled, and what settling it moves.
use quanquant.Base.{
  ℕ, ◌+◌, ◌≤◌, ◌<◌, String, ◌≡◌, refl, inl, inr, true, false, none, [], ◌∷◌, arith, str_eq_iff,
  find?, count_where, count_where-append, ◌&&◌, sum_where, Option-cases, ==_iff,
}
use native.Mathlib.Decide.{dec_le}
use quanquant.Broker.Types.{Mode}
use quanquant.Broker.Quota.{
  Quotas, QuotaReservation, QuotaState, quota_used_today, reserve_quota, confirm_quota,
  release_quota, settle, reserved, by_id, counts_for, open_by_id, is_reserved,
}
use quanquant.Broker.Quota.Laws.{
  reserve_quota_old, reserve_quota_new, reserve_quota_full, with_reservation,
}

-- How many rows have the id, and how many of these are still reserved.
abbrev rows_of : String → Quotas → ℕ
rows_of id = count_where (by_id id)

abbrev open_rows_of : String → Quotas → ℕ
open_rows_of id = count_where (open_by_id id)

-- The reservation is in the table, and it is confirmed or released.
abbrev pub IsSettled : String → Quotas → Type 0
IsSettled id t = (0 < rows_of id t) × (open_rows_of id t ≡ 0)

rows_of-settle :
    (s : QuotaState) (id j : String) (t : Quotas) → rows_of j (settle s id t).1 ≡ rows_of j t
unfolding settle
rows_of-settle s id j [] = refl
rows_of-settle s id j (r ∷ t) = ground (arith, rows_of-settle s id j t)

open_rows_of-le : (id : String) (t : Quotas) → open_rows_of id t ≤ rows_of id t
open_rows_of-le id [] = omega arith
open_rows_of-le id (r ∷ t) = ground (arith, open_rows_of-le id t)

rows_of-none : (id : String) (t : Quotas) → find? (by_id id) t ≡ none → rows_of id t ≡ 0
rows_of-none id [] e = refl
rows_of-none id (r ∷ t) e = ground (arith, rows_of-none id t)

-- A settled state is one that is no longer `reserved`.
module _ (s : QuotaState) (settles : is_reserved s ≡ false) where
  open_rows_of-settle_self : (id : String) (t : Quotas) → open_rows_of id (settle s id t).1 ≡ 0
  unfolding settle
  open_rows_of-settle_self id [] = refl
  open_rows_of-settle_self id (r ∷ t) = ground (arith, open_rows_of-settle_self id t)

  open_rows_of-settle-le :
      (id j : String) (t : Quotas) → open_rows_of j (settle s id t).1 ≤ open_rows_of j t
  unfolding settle
  open_rows_of-settle-le id j [] = omega arith
  open_rows_of-settle-le id j (r ∷ t) = ground (arith, open_rows_of-settle-le id j t)

  -- A settlement that succeeds leaves the reservation settled.
  pub settle-IsSettled :
      (id : String) (t : Quotas) → (settle s id t).0 ≡ true → IsSettled id (settle s id t).1
  unfolding settle
  settle-IsSettled id t h = (
    rw (rows_of-settle s id id t)
        (omega (arith, open_rows_of-le id t, (==_iff (open_rows_of id t) 1).0 h)),
    open_rows_of-settle_self id t,
  )

  -- No settlement of any reservation undoes that.
  pub settle-keeps_IsSettled :
      (id j : String) (t : Quotas) → IsSettled j t → IsSettled j (settle s id t).1
  settle-keeps_IsSettled id j t h =
      omega (arith, rows_of-settle s id j t, open_rows_of-settle-le id j t)

-- A settled reservation is settled no second time.
pub settle_again :
    (s : QuotaState) (id : String) (t : Quotas) → IsSettled id t → (settle s id t).0 ≡ false
unfolding settle
settle_again s id t h = ground arith

fresh_row-keeps_IsSettled :
    (id : String) (u : ℕ) (m : Mode) (d : String) (qty : ℕ) (j : String) (t : Quotas)
    → find? (by_id id) t ≡ none
    → IsSettled j t
    → IsSettled j (with_reservation id u m d qty t)
fresh_row-keeps_IsSettled id u m d qty j t fresh h =
    let row : QuotaReservation = record {
      reservation_id = id;
      user_id = u;
      mode = m;
      trading_day = d;
      qty = qty;
      state = reserved;
    } in
    ground (
      arith,
      count_where-append (by_id j) t (row ∷ []),
      count_where-append (open_by_id j) t (row ∷ []),
      str_eq_iff id j,
      rows_of-none id t,
    )

-- A call that reserves, for any id, leaves a settled reservation settled.
pub reserve_quota-keeps_IsSettled :
    (id : String) (u : ℕ) (m : Mode) (d : String) (qty limit : ℕ) (j : String) (t : Quotas)
    → IsSettled j t
    → IsSettled j (reserve_quota id u m d qty limit t).1
reserve_quota-keeps_IsSettled id u m d qty limit j t h = elim (Option-cases (find? (by_id id) t)) [
  | inl fresh ↦ elim (dec_le (quota_used_today u m d t + qty) limit) [
    | yes fits ↦
        rw (reserve_quota_new id u m d qty limit t fresh fits)
          (fresh_row-keeps_IsSettled id u m d qty j t fresh h)
    | no full ↦ rw (reserve_quota_full id u m d qty limit t fresh full) h
  ]
  | inr (r, e) ↦ rw (reserve_quota_old id u m d qty limit t r e) h
]

-- The quantity that the open rows of an id count for in a scope.
abbrev pub held : String → ℕ → Mode → String → Quotas → ℕ
held id u m d = sum_where (λ r. open_by_id id r && counts_for u m d r) (λ r. r.qty)

-- A confirmation changes no used quota.
pub confirm_quota-used :
    (id : String) (u : ℕ) (m : Mode) (d : String) (t : Quotas)
    → quota_used_today u m d (confirm_quota id t).1 ≡ quota_used_today u m d t
unfolding confirm_quota settle quota_used_today
confirm_quota-used id u m d [] = refl
confirm_quota-used id u m d (r ∷ t) = ground (arith, confirm_quota-used id u m d t)

-- A release gives back exactly what the reservation held, in its own scope.
pub release_quota-used :
    (id : String) (u : ℕ) (m : Mode) (d : String) (t : Quotas)
    → quota_used_today u m d (release_quota id t).1 + held id u m d t ≡ quota_used_today u m d t
unfolding release_quota settle quota_used_today
release_quota-used id u m d [] = refl
release_quota-used id u m d (r ∷ t) = ground (arith, release_quota-used id u m d t)
