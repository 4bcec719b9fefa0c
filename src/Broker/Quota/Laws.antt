-- ===== src/Broker/Quota/Laws.antt =====
-- One call on the table of reservations: what it does to the used quota of each scope.
use quanquant.Base.{
  ℕ, ◌+◌, ◌≤◌, String, ◌≡◌, inl, inr, true, false, none, some, [], ◌∷◌, ◌++◌, arith, str_eq,
  str_eq_iff, find?, sum_where-append, Option-cases, le→leb, ◌==◌, ◌&&◌, Bool-cases, if◌then◌else◌,
}
use native.Mathlib.Decide.{dec_le}
use quanquant.Broker.Types.{Mode, mode_eq}
use quanquant.Broker.Quota.{
  Quotas, QuotaReservation, QuotaState, quota_used_today, reserve_quota, settle, reserved, by_id,
  active_state, counts_for, open_by_id, set_state,
}

-- In every scope of user, mode and day the used quota is within the limit.
abbrev pub IsWithin : ℕ → Quotas → Type 0
IsWithin limit t = (u : ℕ) (m : Mode) (d : String) → quota_used_today u m d t ≤ limit

-- No two rows have one reservation id.
abbrev pub IsUnique : Quotas → Type 0
IsUnique [] = Unit
IsUnique (r ∷ t) = (find? (by_id r.reservation_id) t ≡ none) × IsUnique t

mode_eq→eq : (a b : Mode) → mode_eq a b ≡ true → a ≡ b
mode_eq→eq a b h = ground arith

-- A row that counts for a scope has that scope.
counts_for-scope :
    (u : ℕ) (m : Mode) (d : String) (r : QuotaReservation)
    → counts_for u m d r ≡ true
    → (r.user_id ≡ u) × (r.mode ≡ m) × (r.trading_day ≡ d)
counts_for-scope u m d r h = ground (arith, mode_eq→eq r.mode m, str_eq_iff r.trading_day d)

-- What a settled row still counts for is what it counted for before, if the state stays active.
settle_row-le :
    (s : QuotaState) (u : ℕ) (m : Mode) (d : String) (id : String) (r : QuotaReservation)
    → (if counts_for u m d (if open_by_id id r then set_state s r else r) then r.qty else 0)
      ≤ (if counts_for u m d r then r.qty else 0)
settle_row-le s u m d id r = ground arith

pub settle-le :
    (s : QuotaState) (id : String) (u : ℕ) (m : Mode) (d : String) (t : Quotas)
    → quota_used_today u m d (settle s id t).1 ≤ quota_used_today u m d t
unfolding settle quota_used_today
settle-le s id u m d [] = omega arith
settle-le s id u m d (r ∷ t) = ground (arith, settle-le s id u m d t)

-- The table with a new reservation at its end.
abbrev pub with_reservation : String → ℕ → Mode → String → ℕ → Quotas → Quotas
with_reservation id u m d qty t =
    t
    ++ record {
      reservation_id = id;
      user_id = u;
      mode = m;
      trading_day = d;
      qty = qty;
      state = reserved;
    }
      ∷ []

-- What a new row adds to a scope: its quantity where the scope is its own.
used-with_reservation :
    (id : String) (u : ℕ) (m : Mode) (d : String) (qty : ℕ) (t : Quotas) (u' : ℕ) (m' : Mode)
    (d' : String)
    → quota_used_today u' m' d' (with_reservation id u m d qty t)
      ≡ quota_used_today u' m' d' t
        + (if (u == u' && mode_eq m m') && (str_eq d d' && true) then qty else 0)
unfolding quota_used_today
used-with_reservation id u m d qty t u' m' d' = ground (
  arith,
  sum_where-append (counts_for u' m' d') (λ (r : QuotaReservation). r.qty) t
      (record {
        reservation_id = id;
        user_id = u;
        mode = m;
        trading_day = d;
        qty = qty;
        state = reserved;
      }
        ∷ []),
)

with_reservation-IsWithin :
    (id : String) (u : ℕ) (m : Mode) (d : String) (qty limit : ℕ) (t : Quotas)
    → IsWithin limit t
    → quota_used_today u m d t + qty ≤ limit
    → IsWithin limit (with_reservation id u m d qty t)
with_reservation-IsWithin id u m d qty limit t h fits u' m' d' =
    rw (used-with_reservation id u m d qty t u' m' d')
      (elim (Bool-cases ((u == u' && mode_eq m m') && (str_eq d d' && true))) [
        | inl same ↦ rw same (subst_scope same)
        | inr other ↦ rw other (omega (arith, h u' m' d'))
      ])
  where
    subst_scope :
        ((u == u' && mode_eq m m') && (str_eq d d' && true)) ≡ true
        → quota_used_today u' m' d' t + qty ≤ limit
    subst_scope same =
        let e : (u ≡ u') × (m ≡ m') × (d ≡ d') = ground (arith, mode_eq→eq m m', str_eq_iff d d') in
        rw (← e.0, ← e.1, ← e.2) fits

-- The three outcomes of a call.
module _ (id : String) (u : ℕ) (m : Mode) (d : String) (qty limit : ℕ) (t : Quotas) where
  pub reserve_quota_old :
      (r : QuotaReservation)
      → find? (by_id id) t ≡ some r
      → reserve_quota id u m d qty limit t ≡ (active_state r.state, t)
  unfolding reserve_quota
  reserve_quota_old r e = rw (e, reserve_quota)

  pub reserve_quota_new :
      find? (by_id id) t ≡ none
      → quota_used_today u m d t + qty ≤ limit
      → reserve_quota id u m d qty limit t ≡ (true, with_reservation id u m d qty t)
  unfolding reserve_quota
  reserve_quota_new e fits = rw (e, reserve_quota) (rw (le→leb _ _ fits))

  pub reserve_quota_full :
      find? (by_id id) t ≡ none
      → ¬ (quota_used_today u m d t + qty ≤ limit)
      → reserve_quota id u m d qty limit t ≡ (false, t)
  unfolding reserve_quota
  reserve_quota_full e full = ground arith

  -- A reservation that goes in keeps every scope within the limit.
  pub reserve_quota-IsWithin :
      IsWithin limit t → IsWithin limit (reserve_quota id u m d qty limit t).1
  reserve_quota-IsWithin h = elim (Option-cases (find? (by_id id) t)) [
    | inl fresh ↦ elim (dec_le (quota_used_today u m d t + qty) limit) [
      | yes fits ↦
          rw (reserve_quota_new fresh fits) (with_reservation-IsWithin id u m d qty limit t h fits)
      | no full ↦ rw (reserve_quota_full fresh full) h
    ]
    | inr (r, e) ↦ rw (reserve_quota_old r e) h
  ]
