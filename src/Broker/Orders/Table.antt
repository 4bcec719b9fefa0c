-- ===== src/Broker/Orders/Table.antt =====
-- The table of orders: the idempotent creation, and what a write by id does.
use quanquant.Base.{
  ℕ, ◌≡◌, ◌≢◌, refl, sym, ap, ◌∙◌, inl, inr, ◌⊎◌, Option, none, some, [], ◌∷◌, ◌++◌, arith, String,
  str_eq, str_eq_iff, str_eq_refl, if◌then◌else◌, ◌==◌, Option-cases, Bool-cases,
}
use mathlib.Core.Bool.{false≢true}
use quanquant.Broker.Orders.{
  Order, Orders, NewOrder, Created, created, payload_differs, create_order, order_row,
  find_order_by_client_order_id, get_order, save, set_order_ack, acked,
}
use quanquant.Broker.Orders.Status.{OrderStatus}

-- The two outcomes of a call for a key that is taken, and the one for a key that is free.
module _ (n : NewOrder) (now : ℕ) (t : Orders) where
  create_order_same :
      (o : Order)
      → find_order_by_client_order_id n.client_order_id t ≡ some o
      → o.request_hash ≡ n.request_hash
      → create_order n now t ≡ created o t
  unfolding create_order
  create_order_same o e h = rw (e, create_order, h, str_eq_refl n.request_hash)

  create_order_other :
      (o : Order)
      → find_order_by_client_order_id n.client_order_id t ≡ some o
      → o.request_hash ≢ n.request_hash
      → create_order n now t ≡ payload_differs
  unfolding create_order
  create_order_other o e h = ground (arith, str_eq_iff o.request_hash n.request_hash)

  create_order_new :
      find_order_by_client_order_id n.client_order_id t ≡ none
      → create_order n now t ≡ created (order_row n now t) (t ++ order_row n now t ∷ [])
  unfolding create_order
  create_order_new e = rw (e, create_order)

find-append_new :
    (id : String) (o : Order) (t : Orders)
    → find_order_by_client_order_id id t ≡ none
    → o.client_order_id ≡ id
    → find_order_by_client_order_id id (t ++ o ∷ []) ≡ some o
unfolding find_order_by_client_order_id
find-append_new id o [] e h = ground (arith, str_eq_iff o.client_order_id id)
find-append_new id o (r ∷ t) e h = ground (arith, find-append_new id o t)

created_order : Order → Created → Order
created_order d (created o t) = o
created_order d payload_differs = d

created_table : Orders → Created → Orders
created_table d (created o t) = t
created_table d payload_differs = d

created_injective :
    {o o' : Order} {t t' : Orders} → created o t ≡ created o' t' → (o ≡ o') × (t ≡ t')
unfolding created_order created_table
created_injective {o} {o'} {t} {t'} e = (ap (created_order o) e, ap (created_table t) e)

refused_ne_created : {o : Order} {t : Orders} → payload_differs ≢ created o t
refused_ne_created e = cc

-- The order that a creation answers is the one that the table has under the key, with the hash.
pub create_order-find :
    (n : NewOrder) (now : ℕ) (t : Orders) (o : Order) (t' : Orders)
    → create_order n now t ≡ created o t'
    → (find_order_by_client_order_id n.client_order_id t' ≡ some o)
      × (o.request_hash ≡ n.request_hash)
create_order-find n now t o t' e =
    elim (Option-cases (find_order_by_client_order_id n.client_order_id t)) [
      | inl fresh ↦
          let (row, table) = created_injective (sym (create_order_new n now t fresh) ∙ e) in
          (
            rw (← table, ← row)
                (find-append_new n.client_order_id (order_row n now t) t fresh refl),
            rw (← row),
          )
      | inr (r, found) ↦ elim (Bool-cases (str_eq r.request_hash n.request_hash)) [
        | inl same ↦
            let hash : r.request_hash ≡ n.request_hash =
              (str_eq_iff r.request_hash n.request_hash).0 same in
            let (row, table) =
              created_injective (sym (create_order_same n now t r found hash) ∙ e) in
            (rw (← table, ← row) found, rw (← row) hash)
        | inr other ↦
            let differs : r.request_hash ≢ n.request_hash =
              λ h. false≢true (sym other ∙ (str_eq_iff r.request_hash n.request_hash).1 h) in
            absurd (refused_ne_created (sym (create_order_other n now t r found differs) ∙ e))
      ]
    ]

-- A creation leaves the table alone, or adds the new row.
pub create_order-table :
    (n : NewOrder) (now : ℕ) (t : Orders) (o : Order) (t' : Orders)
    → create_order n now t ≡ created o t'
    → (t' ≡ t) ⊎ (t' ≡ t ++ order_row n now t ∷ [])
create_order-table n now t o t' e =
    elim (Option-cases (find_order_by_client_order_id n.client_order_id t)) [
      | inl fresh ↦ inr (sym (created_injective (sym (create_order_new n now t fresh) ∙ e)).1)
      | inr (r, found) ↦ elim (Bool-cases (str_eq r.request_hash n.request_hash)) [
        | inl same ↦
            let hash : r.request_hash ≡ n.request_hash =
              (str_eq_iff r.request_hash n.request_hash).0 same in
            inl (sym (created_injective (sym (create_order_same n now t r found hash) ∙ e)).1)
        | inr other ↦
            let differs : r.request_hash ≢ n.request_hash =
              λ h. false≢true (sym other ∙ (str_eq_iff r.request_hash n.request_hash).1 h) in
            absurd (refused_ne_created (sym (create_order_other n now t r found differs) ∙ e))
      ]
    ]

-- A creation is idempotent: a replay of the key with the same payload answers the same order and
-- adds nothing, and with another payload it is refused.
create_order_replay :
    (n n' : NewOrder) (now now' : ℕ) (t : Orders) (o : Order) (t' : Orders)
    → create_order n now t ≡ created o t'
    → n'.client_order_id ≡ n.client_order_id
    → (n'.request_hash ≡ n.request_hash → create_order n' now' t' ≡ created o t')
      × (n'.request_hash ≢ n.request_hash → create_order n' now' t' ≡ payload_differs)
create_order_replay n n' now now' t o t' e same =
    let (found, hash) = create_order-find n now t o t' e in
    (
      λ h. create_order_same n' now' t' o (rw same found) (rw (hash, h)),
      λ h. create_order_other n' now' t' o (rw same found) (λ k. h (rw (← k) hash)),
    )

get_order-id : (id : ℕ) (t : Orders) (o : Order) → get_order id t ≡ some o → o.id ≡ id
unfolding get_order
get_order-id id [] o e = cc
get_order-id id (r ∷ t) o e = ground (arith, get_order-id id t o)

pub get-save :
    (id : ℕ) (o o' : Order) (t : Orders)
    → o'.id ≡ id
    → get_order id t ≡ some o
    → get_order id (save o' t) ≡ some o'
unfolding get_order save
get-save id o o' [] h e = cc
get-save id o o' (r ∷ t) h e = ground (arith, get-save id o o' t)

-- The row that a write puts in place of what was found.
abbrev instead : Order → Option Order → Option Order
instead o none = none
instead o (some _) = some o

pub get_order-save :
    (o : Order) (j : ℕ) (t : Orders)
    → get_order j (save o t) ≡ (if o.id == j then instead o (get_order j t) else get_order j t)
unfolding get_order save
get_order-save o j [] = ground arith
get_order-save o j (r ∷ t) = ground (arith, get_order-save o j t)

-- The acknowledged row in place of the found one.
abbrev pub acked_row : String → Option String → OrderStatus → ℕ → Option Order → Option Order
acked_row b ordno s now none = none
acked_row b ordno s now (some o) = some (acked b ordno s now o)

-- An acknowledgement by id leaves the order with the given ids and status whatever status it had
-- reached, a final one included, keeps what was filled, and writes no other order.
get_order-set_order_ack :
    (id : ℕ) (b : String) (ordno : Option String) (s : OrderStatus) (now j : ℕ) (t : Orders)
    → get_order j (set_order_ack id b ordno s now t).1
      ≡ (if id == j then acked_row b ordno s now (get_order j t) else get_order j t)
unfolding set_order_ack
get_order-set_order_ack id b ordno s now j t = elim (Option-cases (get_order id t)) [
  | inl e ↦ rw (e, set_order_ack) (ground (arith))
  | inr (o, e) ↦
      let same = get_order-id id t o e in
      rw (e, set_order_ack) (ground (arith, get_order-save (acked b ordno s now o) j t))
]
