-- ===== src/Broker/Quota/Runs.antt =====
-- Any sequence of calls on the reservations, which is any interleaving of the clients.
use quanquant.Base.{
  ℕ, ◌+◌, ◌≤◌, String, ◌≡◌, refl, ap, ◌∙◌, inl, inr, Bool, true, false, List, [], ◌∷◌, arith,
  str_eq, some, none, Bool-cases, if◌then◌else◌, ◌&&◌, str_eq_iff, find?, Option-cases, str_eq_refl,
}
use native.Mathlib.Decide.{dec_le}
use quanquant.Broker.Types.{Mode}
use quanquant.Broker.Quota.{
  Quotas, QuotaState, quota_used_today, reserve_quota, confirm_quota, release_quota, settle,
  confirmed, released, by_id, active_state, is_reserved,
}
use quanquant.Broker.Quota.Laws.{
  IsWithin, reserve_quota-IsWithin, reserve_quota_old, reserve_quota_new, reserve_quota_full,
  with_reservation,
}
use quanquant.Broker.Quota.Settling.{
  IsSettled, settle-IsSettled, settle-keeps_IsSettled, settle_again, reserve_quota-keeps_IsSettled,
  confirm_quota-used, release_quota-used,
}

pub data QuotaCall : Type 0 where
  reserve : String → ℕ → Mode → String → ℕ → QuotaCall
  confirm : String → QuotaCall
  release : String → QuotaCall

-- One call, with the deployment's daily limit.
unfoldable pub call : ℕ → QuotaCall → Quotas → Bool × Quotas
call limit (reserve id u m d qty) t = reserve_quota id u m d qty limit t
call limit (confirm id) t = confirm_quota id t
call limit (release id) t = release_quota id t

unfoldable pub run : ℕ → List QuotaCall → Quotas → Quotas
run limit [] t = t
run limit (c ∷ calls) t = run limit calls (call limit c t).1

-- Whether the call confirms or releases the reservation `id`.
abbrev pub settles : String → QuotaCall → Bool
settles id (reserve _ _ _ _ _) = false
settles id (confirm j) = str_eq j id
settles id (release j) = str_eq j id

-- How many of the calls of a run settled the reservation `id` with success.
unfoldable pub settlements : ℕ → String → List QuotaCall → Quotas → ℕ
settlements limit id [] t = 0
settlements limit id (c ∷ calls) t =
    (if settles id c && (call limit c t).0 then 1 else 0)
    + settlements limit id calls (call limit c t).1

call-IsWithin :
    (limit : ℕ) (c : QuotaCall) (t : Quotas) → IsWithin limit t → IsWithin limit (call limit c t).1
unfolding call
call-IsWithin limit (reserve id u m d qty) t h = reserve_quota-IsWithin id u m d qty limit t h
call-IsWithin limit (confirm id) t h = λ u m d. rw (confirm_quota-used id u m d t) (h u m d)
call-IsWithin limit (release id) t h =
    λ u m d. omega (arith, release_quota-used id u m d t, h u m d)

-- However the clients interleave, no scope of user, mode and day uses more than the daily limit.
pub run-IsWithin :
    (limit : ℕ) (calls : List QuotaCall) (t : Quotas)
    → IsWithin limit t
    → IsWithin limit (run limit calls t)
unfolding run
run-IsWithin limit [] t h = h
run-IsWithin limit (c ∷ calls) t h =
    run-IsWithin limit calls (call limit c t).1 (call-IsWithin limit c t h)

call-keeps_IsSettled :
    (limit : ℕ) (c : QuotaCall) (id : String) (t : Quotas)
    → IsSettled id t
    → IsSettled id (call limit c t).1
unfolding call confirm_quota release_quota
call-keeps_IsSettled limit (reserve j u m d qty) id t h =
    reserve_quota-keeps_IsSettled j u m d qty limit id t h
call-keeps_IsSettled limit (confirm j) id t h = settle-keeps_IsSettled confirmed refl j id t h
call-keeps_IsSettled limit (release j) id t h = settle-keeps_IsSettled released refl j id t h

settle_on_settled :
    (s : QuotaState) (j id : String) (t : Quotas)
    → IsSettled id t
    → (str_eq j id && (settle s j t).0) ≡ false
settle_on_settled s j id t h = elim (Bool-cases (str_eq j id)) [
  | inl same ↦ rw (same, settle_again s j t (rw ((str_eq_iff j id).0 same) h))
  | inr other ↦ rw other
]

settle_with_success :
    (s : QuotaState) (j id : String) (t : Quotas)
    → is_reserved s ≡ false
    → (str_eq j id && (settle s j t).0) ≡ true
    → IsSettled id (settle s j t).1
settle_with_success s j id t e h =
    let both : (j ≡ id) × ((settle s j t).0 ≡ true) = ground (arith, str_eq_iff j id) in
    rw (← both.0) (settle-IsSettled s e j t both.1)

-- On a settled reservation no call settles it, so none of a run does.
call_on_settled :
    (limit : ℕ) (c : QuotaCall) (id : String) (t : Quotas)
    → IsSettled id t
    → (settles id c && (call limit c t).0) ≡ false
unfolding call confirm_quota release_quota
call_on_settled limit (reserve j u m d qty) id t h = refl
call_on_settled limit (confirm j) id t h = settle_on_settled confirmed j id t h
call_on_settled limit (release j) id t h = settle_on_settled released j id t h

settlements_of_settled :
    (limit : ℕ) (id : String) (calls : List QuotaCall) (t : Quotas)
    → IsSettled id t
    → settlements limit id calls t ≡ 0
unfolding settlements
settlements_of_settled limit id [] t h = refl
settlements_of_settled limit id (c ∷ calls) t h = rw (call_on_settled limit c id t h) (
    omega (
      arith,
      settlements_of_settled limit id calls (call limit c t).1
          (call-keeps_IsSettled limit c id t h),
    ))

call-settles :
    (limit : ℕ) (c : QuotaCall) (id : String) (t : Quotas)
    → (settles id c && (call limit c t).0) ≡ true
    → IsSettled id (call limit c t).1
unfolding call confirm_quota release_quota
call-settles limit (reserve j u m d qty) id t h = absurd (cc)
call-settles limit (confirm j) id t h = settle_with_success confirmed j id t refl h
call-settles limit (release j) id t h = settle_with_success released j id t refl h

-- In any run of calls, at most one confirmation or release of a reservation succeeds.
pub settlements-le :
    (limit : ℕ) (id : String) (calls : List QuotaCall) (t : Quotas)
    → settlements limit id calls t ≤ 1
unfolding settlements
settlements-le limit id [] t = omega arith
settlements-le limit id (c ∷ calls) t = elim (Bool-cases (settles id c && (call limit c t).0)) [
  | inl done ↦
      rw
        (
          done,
          settlements_of_settled limit id calls (call limit c t).1 (call-settles limit c id t done),
        )
        (omega arith)
  | inr other ↦ rw other (omega (arith, settlements-le limit id calls (call limit c t).1))
]

find-with_reservation :
    (id : String) (u : ℕ) (m : Mode) (d : String) (qty : ℕ) (t : Quotas)
    → find? (by_id id) t ≡ none
    → find? (by_id id) (with_reservation id u m d qty t)
      ≡ some (record {
        reservation_id = id;
        user_id = u;
        mode = m;
        trading_day = d;
        qty = qty;
        state = QuotaState.reserved;
      })
find-with_reservation id u m d qty [] e = rw (str_eq_refl id)
find-with_reservation id u m d qty (r ∷ t) e = ground (arith, find-with_reservation id u m d qty t)

-- A reservation that holds is answered `true` again under its id, whatever the replay asks for, and the replay changes nothing.
reserve_quota_replay :
    (id : String) (u u' : ℕ) (m m' : Mode) (d d' : String) (qty qty' limit limit' : ℕ) (t : Quotas)
    → (reserve_quota id u m d qty limit t).0 ≡ true
    → reserve_quota id u' m' d' qty' limit' (reserve_quota id u m d qty limit t).1
      ≡ (true, (reserve_quota id u m d qty limit t).1)
reserve_quota_replay id u u' m m' d d' qty qty' limit limit' t h =
    elim (Option-cases (find? (by_id id) t)) [
      | inl fresh ↦ elim (dec_le (quota_used_today u m d t + qty) limit) [
        | yes fits ↦ rw (reserve_quota_new id u m d qty limit t fresh fits) (
            reserve_quota_old id u' m' d' qty' limit' (with_reservation id u m d qty t) _
              (find-with_reservation id u m d qty t fresh))
        | no full ↦ absurd (ground (arith, reserve_quota_full id u m d qty limit t fresh full))
      ]
      | inr (r, e) ↦
          let old : reserve_quota id u m d qty limit t ≡ (active_state r.state, t) =
            reserve_quota_old id u m d qty limit t r e in
          let active : active_state r.state ≡ true = cc in
          rw old (reserve_quota_old id u' m' d' qty' limit' t r e ∙ ap (λ b. (b, t)) active)
    ]
