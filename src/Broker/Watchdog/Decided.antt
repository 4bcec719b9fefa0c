-- ===== src/Broker/Watchdog/Decided.antt =====
-- What a pass of the watchdog decides about each reservation, against a reading of the orders.
use quanquant.Base.{
  ℕ, ◌+◌, String, ◌≡◌, refl, sym, ◌||◌, ◌∙◌, Bool, true, false, Option, none, some, [], ◌∷◌, arith,
  inl, inr, ◌==◌, str_eq_iff, str_eq_refl, if◌then◌else◌, find?, select, Bool-cases,
}
use quanquant.Broker.Quota.{
  Quotas, QuotaReservation, confirmed, released, by_id, confirm_quota, release_quota,
}
use quanquant.Broker.Quota.Laws.{IsUnique}
use quanquant.Broker.Orders.{Order}
use quanquant.Broker.Watchdog.{settle_update, settle_reservations}
use quanquant.Broker.Watchdog.Settled.{settled, find-settle, settle-IsUnique, find-id}

-- The broker has the new quantity, or it has the old one, or nothing can be said.
abbrev pub decide : ℕ → Order → QuotaReservation → QuotaReservation
decide real_qty o r =
    if real_qty == o.qty + r.qty
    then settled confirmed r
    else if real_qty == o.qty
    then settled released r
    else r

abbrev pub decide_told : Option ℕ → Order → QuotaReservation → QuotaReservation
decide_told none o r = r
decide_told (some real_qty) o r = decide real_qty o r

-- The rows of the pass that have the id of a row.
abbrev pub is_listed : QuotaReservation → Quotas → Bool
is_listed r [] = false
is_listed r (p ∷ ps) = by_id p.reservation_id r || is_listed r ps

-- They have its quantity.
abbrev pub Agrees : QuotaReservation → Quotas → Type 0
Agrees r [] = Unit {0}
Agrees r (p ∷ ps) = (by_id p.reservation_id r ≡ true → p.qty ≡ r.qty) × Agrees r ps

find-settle_update :
    (real_qty : ℕ) (o : Order) (p : QuotaReservation) (id : String) (t : Quotas)
    (r : QuotaReservation)
    → (by_id p.reservation_id r ≡ true → p.qty ≡ r.qty)
    → find? (by_id id) t ≡ some r
    → find? (by_id id) (settle_update real_qty o p t).1
      ≡ some (if by_id p.reservation_id r then decide real_qty o r else r)
unfolding settle_update confirm_quota release_quota
find-settle_update real_qty o p id t r agrees h =
    let taken = find-settle confirmed p.reservation_id id t r h in
    let given = find-settle released p.reservation_id id t r h in
    elim (Bool-cases (by_id p.reservation_id r)) [
      | inl same ↦ elim (Bool-cases (real_qty == o.qty + p.qty)) [
        | inl new ↦
            let whole : (real_qty == o.qty + r.qty) ≡ true = rw (sym (agrees same)) new in
            rw (new, whole, same) (rw same at taken)
        | inr other ↦
            let whole : (real_qty == o.qty + r.qty) ≡ false = rw (sym (agrees same)) other in
            elim (Bool-cases (real_qty == o.qty)) [
              | inl old ↦ rw (other, whole, old, same) (rw same at given)
              | inr neither ↦ rw (other, whole, neither, same) h
            ]
      ]
      | inr differs ↦ elim (Bool-cases (real_qty == o.qty + p.qty)) [
        | inl new ↦ rw (new, differs) (rw differs at taken)
        | inr other ↦ elim (Bool-cases (real_qty == o.qty)) [
          | inl old ↦ rw (other, old, differs) (rw differs at given)
          | inr neither ↦ rw (other, neither, differs) h
        ]
      ]
    ]

decide_again : (q : ℕ) (o : Order) (r : QuotaReservation) → decide q o (decide q o r) ≡ decide q o r
decide_again q o r = ground arith

decided_id :
    (q : ℕ) (o : Order) (r : QuotaReservation) → (decide q o r).reservation_id ≡ r.reservation_id
decided_id q o r = ground arith

decided_qty : (q : ℕ) (o : Order) (r : QuotaReservation) → (decide q o r).qty ≡ r.qty
decided_qty q o r = ground arith

settle_update-IsUnique :
    (q : ℕ) (o : Order) (p : QuotaReservation) (t : Quotas)
    → IsUnique t
    → IsUnique (settle_update q o p t).1
unfolding settle_update confirm_quota release_quota
settle_update-IsUnique q o p t u = elim (Bool-cases (q == o.qty + p.qty)) [
  | inl new ↦ rw new (settle-IsUnique confirmed p.reservation_id t u)
  | inr other ↦ elim (Bool-cases (q == o.qty)) [
    | inl old ↦ rw (other, old) (settle-IsUnique released p.reservation_id t u)
    | inr neither ↦ rw (other, neither) u
  ]
]

decide-Agrees :
    (q : ℕ) (o : Order) (r : QuotaReservation) (ps : Quotas)
    → Agrees r ps
    → Agrees (decide q o r) ps
decide-Agrees q o r [] a = tt
decide-Agrees q o r (p ∷ ps) (a, rest) =
    (rw (decided_id q o r, decided_qty q o r) a, decide-Agrees q o r ps rest)

pub either_way : (b : Bool) (r : QuotaReservation) → (if b then r else r) ≡ r
either_way b r = ground arith

pub find-settle_reservations :
    (q : ℕ) (o : Order) (id : String) (ps t : Quotas) (r : QuotaReservation)
    → Agrees r ps
    → find? (by_id id) t ≡ some r
    → find? (by_id id) (settle_reservations q o ps t).1
      ≡ some (if is_listed r ps then decide q o r else r)
unfolding settle_reservations
find-settle_reservations q o id [] t r agrees h = h
find-settle_reservations q o id (p ∷ ps) t r (a, agrees) h =
    let t' = (settle_update q o p t).1 in
    let now = find-settle_update q o p id t r a h in
    elim (Bool-cases (by_id p.reservation_id r)) [
      | inl same ↦
          let found : find? (by_id id) t' ≡ some (decide q o r) = rw same at now in
          let later =
            find-settle_reservations q o id ps t' (decide q o r) (decide-Agrees q o r ps agrees)
              found in
          rw same (rw (decide_again q o r, either_way) at later)
      | inr differs ↦
          let found : find? (by_id id) t' ≡ some r = rw differs at now in
          rw differs (find-settle_reservations q o id ps t' r agrees found)
    ]

pub settle_reservations-IsUnique :
    (q : ℕ) (o : Order) (ps t : Quotas) → IsUnique t → IsUnique (settle_reservations q o ps t).1
unfolding settle_reservations
settle_reservations-IsUnique q o [] t u = u
settle_reservations-IsUnique q o (p ∷ ps) t u =
    settle_reservations-IsUnique q o ps (settle_update q o p t).1 (settle_update-IsUnique q o p t u)

-- Where no two rows share an id, a row is among those that are listed if it fits the query.
module _ (fits : QuotaReservation → Bool) where
  unlisted :
      (r : QuotaReservation) (t : Quotas)
      → find? (by_id r.reservation_id) t ≡ none
      → (is_listed r (select fits t) ≡ false) × Agrees r (select fits t)
  unlisted r [] h = (refl, tt)
  unlisted r (x ∷ t) h =
      let differs : by_id x.reservation_id r ≡ false = ground (
        arith,
        str_eq_iff x.reservation_id r.reservation_id,
        str_eq_iff r.reservation_id x.reservation_id,
      ) in
      let (out, agrees) = unlisted r t (ground arith) in
      elim (Bool-cases (fits x)) [
        | inl in_list ↦ rw (in_list, differs) (out, (λ e. absurd (cc), agrees))
        | inr left_out ↦ rw left_out (out, agrees)
      ]

  pub listed :
      (id : String) (t : Quotas) (r : QuotaReservation)
      → IsUnique t
      → find? (by_id id) t ≡ some r
      → (is_listed r (select fits t) ≡ fits r) × Agrees r (select fits t)
  listed id [] r u h = absurd (cc)
  listed id (x ∷ t) r (fresh, u) h = elim (Bool-cases (by_id id x)) [
    | inl here ↦
        let same : x ≡ r = ground arith in
        let (out, agrees) = unlisted r t (rw (sym same) fresh) in
        elim (Bool-cases (fits x)) [
          | inl in_list ↦
              let yes : fits r ≡ true = cc in
              rw (in_list, same, str_eq_refl r.reservation_id, yes) (refl, (λ e. refl, agrees))
          | inr left_out ↦ let no : fits r ≡ false = cc in rw left_out (out ∙ sym no, agrees)
        ]
    | inr other ↦
        let found : find? (by_id id) t ≡ some r = ground arith in
        let (out, agrees) = listed id t r u found in
        let named = find-id id t r found in
        let differs : by_id x.reservation_id r ≡ false =
          ground
            (arith, str_eq_iff x.reservation_id id, str_eq_iff r.reservation_id x.reservation_id) in
        elim (Bool-cases (fits x)) [
          | inl in_list ↦ rw (in_list, differs) (out, (λ e. absurd (cc), agrees))
          | inr left_out ↦ rw left_out (out, agrees)
        ]
  ]
