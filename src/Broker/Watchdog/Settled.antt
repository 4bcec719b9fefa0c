-- ===== src/Broker/Watchdog/Settled.antt =====
-- What a settlement leaves of the reservation that is found under an id.
use quanquant.Base.{
  String, ◌≡◌, refl, none, some, [], ◌∷◌, arith, inl, inr, str_eq_iff, if◌then◌else◌, find?,
  Bool-cases,
}
use quanquant.Broker.Quota.{
  Quotas, QuotaReservation, QuotaState, is_reserved, by_id, open_by_id, settle, set_state,
}
use quanquant.Broker.Quota.Laws.{IsUnique}

abbrev pub settled : QuotaState → QuotaReservation → QuotaReservation
settled s r = if is_reserved r.state then set_state s r else r

-- The row that a settlement makes of a row.
abbrev row : QuotaState → String → QuotaReservation → QuotaReservation
row s j r = if open_by_id j r then set_state s r else r

row_id :
    (s : QuotaState) (j : String) (r : QuotaReservation)
    → (row s j r).reservation_id ≡ r.reservation_id
row_id s j r = ground arith

row_lem :
    (s : QuotaState) (j : String) (r : QuotaReservation)
    → row s j r ≡ (if by_id j r then settled s r else r)
row_lem s j r = ground arith

pub find-id :
    (id : String) (t : Quotas) (r : QuotaReservation)
    → find? (by_id id) t ≡ some r
    → r.reservation_id ≡ id
find-id id [] r h = absurd (cc)
find-id id (x ∷ t) r h = ground (arith, find-id id t r, str_eq_iff x.reservation_id id)

pub find-settle :
    (s : QuotaState) (j id : String) (t : Quotas) (r : QuotaReservation)
    → find? (by_id id) t ≡ some r
    → find? (by_id id) (settle s j t).1 ≡ some (if by_id j r then settled s r else r)
unfolding settle
find-settle s j id [] r h = absurd (cc)
find-settle s j id (x ∷ t) r h = elim (Bool-cases (by_id id x)) [
  | inl here ↦
      let same : x ≡ r = ground arith in rw (row_id s j x, here) (rw (row_lem s j x, same) refl)
  | inr other ↦
      let later : find? (by_id id) t ≡ some r = ground arith in
      rw (row_id s j x, other) (find-settle s j id t r later)
]

no-settle :
    (s : QuotaState) (j id : String) (t : Quotas)
    → find? (by_id id) t ≡ none
    → find? (by_id id) (settle s j t).1 ≡ none
unfolding settle
no-settle s j id [] h = refl
no-settle s j id (x ∷ t) h = elim (Bool-cases (by_id id x)) [
  | inl here ↦ absurd (ground arith)
  | inr other ↦ rw (row_id s j x, other) (no-settle s j id t (ground arith))
]

pub settle-IsUnique :
    (s : QuotaState) (j : String) (t : Quotas) → IsUnique t → IsUnique (settle s j t).1
unfolding settle
settle-IsUnique s j [] u = tt
settle-IsUnique s j (x ∷ t) (fresh, u) =
    (rw (row_id s j x) (no-settle s j x.reservation_id t fresh), settle-IsUnique s j t u)
