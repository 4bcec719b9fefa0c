-- ===== src/Broker/Positions/Invariant.antt =====
-- The invariant of the position table, which the constraints of the database also state, and each
-- write against it.
use quanquant.Base.{
  ℕ, ◌+◌, ◌≤◌, ◌<◌, ◌≡◌, refl, sym, ◌∙◌, Bool, true, false, none, [], ◌∷◌, ◌++◌, arith, ltb,
  if◌then◌else◌, find?, count_where, count_where-append, update_where, ◌==◌, Bool-cases, inl, inr,
  All, ==_iff,
}
use native.Mathlib.Nat.{le_trans}
use quanquant.Base.Int.{ℤ}
use quanquant.Broker.Types.{Direction}
use quanquant.Broker.Positions.{
  Scope, BrokerPosition, Positions, ok, at_version, open_in, find_open_position,
  cas_update_broker_position, new_position, highest_id,
}
use quanquant.Broker.Positions.Measures.{open_in-holds}
use quanquant.Broker.Positions.Rows.{written, Has, count_of-Has, cas_update-eq-ok}

-- `0 < total_opened_qty`, `closed_qty <= total_opened_qty`, and open is the same as not yet closed.
pub record IsValidRow (p : BrokerPosition) : Type 0 where
  pub opened : 0 < p.total_opened_qty
  pub closes : p.closed_qty ≤ p.total_opened_qty
  pub status : p.is_open ≡ ltb p.closed_qty p.total_opened_qty

abbrev pub has_id : ℕ → BrokerPosition → Bool
has_id k r = r.id == k

-- No two rows have one id; ids may be missing in between.
abbrev pub HasDistinctIds : Positions → Type 0
HasDistinctIds t = (k : ℕ) → count_where (has_id k) t ≤ 1

-- Every row is valid, the ids are distinct, and a scope has one open position in a direction.
pub record IsValid (t : Positions) : Type 0 where
  pub rows : All IsValidRow t
  pub ids : HasDistinctIds t
  pub single : (s : Scope) (d : Direction) → count_where (open_in s d) t ≤ 1

-- A test that looks at the id finds one row at most.
by_id-le :
    (k : ℕ) (q : BrokerPosition → Bool) (t : Positions)
    → ((r : BrokerPosition) → q r ≡ true → r.id ≡ k)
    → count_where q t ≤ count_where (has_id k) t
by_id-le k q [] e = omega arith
by_id-le k q (r ∷ t) e = elim (Bool-cases (q r)) [
  | inl hit ↦
      let same : has_id k r ≡ true = (==_iff r.id k).1 (e r hit) in
      rw (hit, same) (omega (arith, by_id-le k q t e))
  | inr miss ↦ rw miss (omega (arith, by_id-le k q t e))
]

at_version-id : (p r : BrokerPosition) → at_version p r ≡ true → r.id ≡ p.id
at_version-id p r h = ground arith

-- A guarded write of an object that was read from the table goes through.
pub cas_update_succeeds :
    (p changed : BrokerPosition) (now : ℕ) (t : Positions)
    → HasDistinctIds t
    → Has p t
    → cas_update_broker_position p changed now t
      ≡ ok (written p changed now, update_where (at_version p) (λ _. written p changed now) t)
unfolding cas_update_broker_position
cas_update_succeeds p changed now t ids h =
    let self : at_version p p ≡ true = ground arith in
    let one : count_where (at_version p) t ≡ 1 = omega (
      arith,
      by_id-le p.id (at_version p) t (at_version-id p),
      ids p.id,
      count_of-Has (at_version p) p t h self,
    ) in
    rw ((==_iff (count_where (at_version p) t) 1).1 one)

All-update :
    (q : BrokerPosition → Bool) (x' : BrokerPosition) (t : Positions)
    → All IsValidRow t
    → IsValidRow x'
    → All IsValidRow (update_where q (λ _. x') t)
All-update q x' [] h v = tt
All-update q x' (r ∷ t) h v = elim (Bool-cases (q r)) [
  | inl hit ↦ rw hit (v, All-update q x' t h.1 v)
  | inr miss ↦ rw miss (h.0, All-update q x' t h.1 v)
]

ids-update :
    (k : ℕ) (q : BrokerPosition → Bool) (x' : BrokerPosition) (t : Positions)
    → ((r : BrokerPosition) → q r ≡ true → r.id ≡ x'.id)
    → count_where (has_id k) (update_where q (λ _. x') t) ≡ count_where (has_id k) t
ids-update k q x' [] e = refl
ids-update k q x' (r ∷ t) e = elim (Bool-cases (q r)) [
  | inl hit ↦ rw (hit, e r hit, ids-update k q x' t e) refl
  | inr miss ↦ rw (miss, ids-update k q x' t e) refl
]

count-update_none :
    (k q : BrokerPosition → Bool) (x' : BrokerPosition) (t : Positions)
    → count_where q t ≡ 0
    → count_where k (update_where q (λ _. x') t) ≡ count_where k t
count-update_none k q x' [] e = refl
count-update_none k q x' (r ∷ t) e = ground (arith, count-update_none k q x' t)

-- A write that adds no row to what a test picks.
count-update :
    (k q : BrokerPosition → Bool) (x x' : BrokerPosition) (t : Positions)
    → Has x t
    → q x ≡ true
    → count_where q t ≡ 1
    → (k x' ≡ true → k x ≡ true)
    → count_where k (update_where q (λ _. x') t) ≤ count_where k t
count-update k q x x' [] h e c keeps = absurd h
count-update k q x x' (r ∷ t) (inl same) e c keeps =
    let hit : q r ≡ true = rw same e in
    let rest : count_where q t ≡ 0 = ground arith in
    rw (hit, count-update_none k q x' t rest, same) (one_row (k x') (k x) (count_where k t) keeps)
  where
    one_row :
        (a b : Bool) (n : ℕ)
        → (a ≡ true → b ≡ true)
        → (if a then 1 else 0) + n ≤ (if b then 1 else 0) + n
    one_row true b n keep = rw (keep refl) (omega arith)
    one_row false b n keep = omega arith
count-update k q x x' (r ∷ t) (inr there) e c keeps =
    let counted = count_of-Has q x t there e in
    let miss : q r ≡ false = ground arith in
    let one : count_where q t ≡ 1 = ground arith in
    rw miss (omega (arith, count-update k q x x' t there e one keeps))

-- A guarded write keeps the invariant, if the object stays valid and is not opened again.
pub cas_update-IsValid :
    (p changed : BrokerPosition) (now : ℕ) (t : Positions) {r : BrokerPosition × Positions}
    → IsValid t
    → Has p t
    → changed.id ≡ p.id
    → IsValidRow changed
    → ((s : Scope) (d : Direction) → open_in s d changed ≡ true → open_in s d p ≡ true)
    → cas_update_broker_position p changed now t ≡ ok r
    → IsValid r.1
cas_update-IsValid p changed now t {r} v h id row keeps e =
    let (one, result) = cas_update-eq-ok p changed now t e in
    let x' = written p changed now in
    let self : at_version p p ≡ true = ground arith in
    rw result (record {
      rows =
          All-update (at_version p) x' t v.rows
            (record { opened = row.opened; closes = row.closes; status = row.status });
      ids = λ k.
          rw (ids-update k (at_version p) x' t (λ q h. at_version-id p q h ∙ sym id)) (v.ids k);
      single = λ s d.
          le_trans (count-update (open_in s d) (at_version p) p x' t h self one (keeps s d))
            (v.single s d);
    })

-- No row has an id above the highest.
above_all_ids : (k : ℕ) (t : Positions) → highest_id t < k → count_where (has_id k) t ≡ 0
above_all_ids k [] above = refl
above_all_ids k (r ∷ t) above = elim (Bool-cases (has_id k r)) [
  | inl hit ↦ absurd (omega (arith, (==_iff r.id k).0 hit))
  | inr miss ↦ rw miss (omega (arith, above_all_ids k t (omega arith)))
]

All-append :
    (t : Positions) (x : BrokerPosition)
    → All IsValidRow t
    → IsValidRow x
    → All IsValidRow (t ++ x ∷ [])
All-append [] x h v = (v, tt)
All-append (r ∷ t) x h v = (h.0, All-append t x h.1 v)

count_of_none : (q : BrokerPosition → Bool) (t : Positions) → find? q t ≡ none → count_where q t ≡ 0
count_of_none q [] e = refl
count_of_none q (r ∷ t) e = ground (arith, count_of_none q t)

-- A new position keeps the invariant where its scope has none open in its direction.
pub new_position-IsValid :
    (s : Scope) (d : Direction) (q : ℕ) (price fee : ℤ) (at now : ℕ) (t : Positions)
    → IsValid t
    → 0 < q
    → find_open_position s d t ≡ none
    → IsValid (t ++ new_position s d q price fee at now t ∷ [])
new_position-IsValid s d q price fee at now t v some_lots free =
    let x = new_position s d q price fee at now t in
    record {
      rows =
          All-append t x v.rows
            (record { opened = some_lots; closes = omega arith; status = ground arith });
      ids = λ k. rw (count_where-append (has_id k) t (x ∷ [])) (elim (Bool-cases (has_id k x)) [
        | inl hit ↦
            let named : highest_id t + 1 ≡ k = (==_iff (highest_id t + 1) k).0 hit in
            let before = above_all_ids k t (omega (arith, named)) in rw (before, hit) (omega arith)
        | inr miss ↦ rw miss (omega (arith, v.ids k))
      ]);
      single = λ s' d'.
          rw (count_where-append (open_in s' d') t (x ∷ [])) (elim (Bool-cases (open_in s' d' x)) [
            | inl hit ↦
                let (same_scope, same_direction, _) = open_in-holds s' d' x hit in
                let before : count_where (open_in s' d') t ≡ 0 =
                  rw (← same_scope, ← same_direction) (count_of_none (open_in s d) t free) in
                rw (before, hit) (omega arith)
            | inr miss ↦ rw miss (omega (arith, v.single s' d'))
          ]);
    }
