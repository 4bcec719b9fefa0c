-- ===== src/Broker/Positions/Rows.antt =====
-- Sums over a table of rows, and what one guarded write does to them.
use quanquant.Base.{
  ℕ, ◌+◌, ◌<◌, ◌≡◌, refl, sym, ap, Bool, true, false, some, List, [], ◌∷◌, ◌++◌, arith, ◌==◌, find?,
  count_where, update_where, Bool-cases, ◌⊎◌, inl, inr, ==_iff,
}
use quanquant.Base.Int.{ℤ, pos, ◌+ℤ◌, int_laws, +ℤ_shift}
use quanquant.Broker.Positions.{
  BrokerPosition, Positions, Outcome, ok, mismatch, conflict, invalid_trade, ◌>>=◌, at_version,
  cas_update_broker_position,
}

module _ {A : Type 0} where
  unfoldable pub total_of : (A → ℤ) → List A → ℤ
  total_of m [] = pos 0
  total_of m (r ∷ t) = m r +ℤ total_of m t

  pub total_of-append :
      (m : A → ℤ) (xs ys : List A) → total_of m (xs ++ ys) ≡ total_of m xs +ℤ total_of m ys
  unfolding total_of
  total_of-append m [] ys = omega int_laws
  total_of-append m (r ∷ xs) ys = rw (total_of-append m xs ys) (omega int_laws)

  pub total_of-snoc :
      (m : A → ℤ) (xs : List A) (x : A) → total_of m (xs ++ x ∷ []) ≡ total_of m xs +ℤ m x
  unfolding total_of
  total_of-snoc m xs x = rw (total_of-append m xs (x ∷ [])) (omega int_laws)

  -- The row stands in the table.
  abbrev pub Has : A → List A → Type 0
  Has x [] = ⊥
  Has x (r ∷ t) = (r ≡ x) ⊎ Has x t

  pub found-Has : (p : A → Bool) (x : A) (t : List A) → find? p t ≡ some x → Has x t
  found-Has p x [] e = absurd (cc)
  found-Has p x (r ∷ t) e = elim (Bool-cases (p r)) [
    | inl here ↦ inl (ground arith)
    | inr there ↦ inr (found-Has p x t (ground arith))
  ]

  -- A row of the table is one that a test counts.
  pub count_of-Has :
      (q : A → Bool) (x : A) (t : List A) → Has x t → q x ≡ true → 0 < count_where q t
  count_of-Has q x [] h k = absurd h
  count_of-Has q x (r ∷ t) (inl e) k = let picked : q r ≡ true = rw e k in rw picked (omega arith)
  count_of-Has q x (r ∷ t) (inr h) k = omega (arith, count_of-Has q x t h k)

  pub Has-update :
      (q : A → Bool) (x' : A) (t : List A)
      → 0 < count_where q t
      → Has x' (update_where q (λ _. x') t)
  Has-update q x' [] c = absurd (omega arith)
  Has-update q x' (r ∷ t) c = elim (Bool-cases (q r)) [
    | inl here ↦ inl (rw here)
    | inr there ↦ inr (Has-update q x' t (ground arith))
  ]

  update_none :
      (q : A → Bool) (x' : A) (m : A → ℤ) (t : List A)
      → count_where q t ≡ 0
      → total_of m (update_where q (λ _. x') t) ≡ total_of m t
  unfolding total_of
  update_none q x' m [] e = refl
  update_none q x' m (r ∷ t) e = ground (arith, update_none q x' m t)

  -- To write over the one row that a test picks changes a sum by the difference of that row.
  pub total_of-update :
      (q : A → Bool) (x x' : A) (m : A → ℤ) (t : List A)
      → Has x t
      → q x ≡ true
      → count_where q t ≡ 1
      → total_of m (update_where q (λ _. x') t) +ℤ m x ≡ total_of m t +ℤ m x'
  unfolding total_of
  total_of-update q x x' m [] h k c = absurd h
  total_of-update q x x' m (r ∷ t) (inl same) k c =
      let picked : q r ≡ true = rw same k in
      let rest : count_where q t ≡ 0 = ground arith in
      rw (picked, update_none q x' m t rest, same) (omega int_laws)
  total_of-update q x x' m (r ∷ t) (inr there) k c =
      let counted = count_of-Has q x t there k in
      let other : q r ≡ false = ground arith in
      let one : count_where q t ≡ 1 = ground arith in
      rw other (
        +ℤ_shift (m r) (total_of m (update_where q (λ _. x') t)) (m x) (total_of m t) (m x')
          (total_of-update q x x' m t there k one))

-- The object after a guarded write.
abbrev pub written : BrokerPosition → BrokerPosition → ℕ → BrokerPosition
written p changed now = record changed { version = p.version + 1; updated_at = now }

at_version_self : (p : BrokerPosition) → at_version p p ≡ true
at_version_self p = ground arith

or_that {ℓ} : {A : Type ℓ} → A → Outcome A → A
or_that d (ok a) = a
or_that d _ = d

pub ok_injective {ℓ} : {A : Type ℓ} {a b : A} → ok a ≡ ok b → a ≡ b
unfolding or_that
ok_injective {a = a} e = ap (or_that a) e

-- A step that ends well, ends well in both its parts.
pub >>=-eq-ok {ℓ κ} :
    {A : Type ℓ} {B : Type κ} (m : Outcome A) (f : A → Outcome B) {b : B}
    → (m >>= f) ≡ ok b
    → (a : A) × (m ≡ ok a) × (f a ≡ ok b)
>>=-eq-ok (ok a) f e = (a, refl, e)
>>=-eq-ok mismatch f e = absurd (cc)
>>=-eq-ok conflict f e = absurd (cc)
>>=-eq-ok invalid_trade f e = absurd (cc)

-- A guarded write that goes through has found one row, and written it.
pub cas_update-eq-ok :
    (p changed : BrokerPosition) (now : ℕ) (t : Positions) {r : BrokerPosition × Positions}
    → cas_update_broker_position p changed now t ≡ ok r
    → (count_where (at_version p) t ≡ 1)
      × (r ≡ (written p changed now, update_where (at_version p) (λ _. written p changed now) t))
unfolding cas_update_broker_position
cas_update-eq-ok p changed now t {r} e = elim (Bool-cases (count_where (at_version p) t == 1)) [
  | inl one ↦ ((==_iff _ 1).0 one, sym (ok_injective (rw (one, cas_update_broker_position) at e)))
  | inr clash ↦ absurd (cc (clash, e))
]

-- Then a sum moves by the change of that row, and the object is in the table again.
module _ (p changed : BrokerPosition) (now : ℕ) (t : Positions)
    {r : BrokerPosition × Positions} where
  pub cas_update-total :
      (m : BrokerPosition → ℤ)
      → Has p t
      → cas_update_broker_position p changed now t ≡ ok r
      → total_of m r.1 +ℤ m p ≡ total_of m t +ℤ m (written p changed now)
  cas_update-total m h e =
      let (one, result) = cas_update-eq-ok p changed now t e in
      rw result
        (total_of-update (at_version p) p (written p changed now) m t h (at_version_self p) one)

  pub cas_update-Has :
      cas_update_broker_position p changed now t ≡ ok r
      → (r.0 ≡ written p changed now) × Has r.0 r.1
  cas_update-Has e =
      let (one, result) = cas_update-eq-ok p changed now t e in
      rw result (refl, Has-update (at_version p) (written p changed now) t (rw one (omega arith)))
