-- ===== src/Broker/Inbox/Backfill.antt =====
-- The backfill of bindings from the orders, and the owners it leaves.
use quanquant.Base.{
  ℕ, ◌≡◌, ap, subst, ◌∙◌, true, false, Option, none, some, [], ◌∷◌, ◌++◌, arith, String, find?,
  Bool-cases, Option-cases, inl, inr, str_eq_iff, str_eq_refl, All, All-map, All-both,
}
use mathlib.Core.Bool.{true≢false}
use mathlib.Core.Option.{some-injective, none-ne-some}
use quanquant.Broker.Orders.{Order, Orders}
use quanquant.Broker.Inbox.{
  AccountBindings, bind_account, account_owned_by_other_user_in_orders, is_other_owner,
  is_same_account, add_owner, owners, has_conflict, write_owners, backfill_account_bindings,
}
use quanquant.Broker.Inbox.Bindings.{owner_of, bind_account-keeps, bound_owner}

-- The key that stands for an order in the scan.
abbrev key_of : Order → Orders → Option Order
key_of o = find? (is_same_account o)

key_of-append :
    (o new k : Order) (keys : Orders)
    → key_of o keys ≡ some k
    → key_of o (keys ++ new ∷ []) ≡ some k
key_of-append o new k [] e = cc
key_of-append o new k (x ∷ keys) e = ground (arith, key_of-append o new k keys)

key_of-append_self :
    (o : Order) (keys : Orders) → key_of o keys ≡ none → key_of o (keys ++ o ∷ []) ≡ some o
key_of-append_self o [] e = ground (arith, str_eq_refl o.broker, str_eq_refl o.account)
key_of-append_self o (x ∷ keys) e = ground (arith, key_of-append_self o keys)

add_owner-keeps :
    (o new k : Order) (keys : Orders)
    → key_of o keys ≡ some k
    → key_of o (add_owner new keys) ≡ some k
add_owner-keeps o new k keys e = elim (Option-cases (key_of new keys)) [
  | inl fresh ↦ rw (fresh, add_owner) (key_of-append o new k keys e)
  | inr (r, found) ↦ rw (found, add_owner) e
]

owners-keeps :
    (os keys : Orders) (o k : Order) → key_of o keys ≡ some k → key_of o (owners os keys) ≡ some k
owners-keeps [] keys o k e = e
owners-keeps (x ∷ os) keys o k e =
    owners-keeps os (add_owner x keys) o k (add_owner-keeps o x k keys e)

-- The order has a key in the scan.
abbrev HasKey : Orders → Order → Type 0
HasKey keys o = (k : Order) × (key_of o keys ≡ some k)

add_owner-HasKey : (o : Order) (keys : Orders) → HasKey (add_owner o keys) o
add_owner-HasKey o keys = elim (Option-cases (key_of o keys)) [
  | inl fresh ↦ rw (fresh, add_owner) (o, key_of-append_self o keys fresh)
  | inr (r, found) ↦ rw (found, add_owner) (r, found)
]

owners-HasKey : (os keys : Orders) → All (HasKey (owners os keys)) os
owners-HasKey [] keys = tt
owners-HasKey (o ∷ os) keys =
    let (k, e) = add_owner-HasKey o keys in
    ((k, owners-keeps os (add_owner o keys) o k e), owners-HasKey os (add_owner o keys))

write_owners-keeps :
    (keys : Orders) (b a : String) (v : ℕ) (t t' : AccountBindings)
    → write_owners keys t ≡ some t'
    → owner_of b a t ≡ some v
    → owner_of b a t' ≡ some v
write_owners-keeps [] b a v t t' e h = rw (← some-injective t t' e) h
write_owners-keeps (o ∷ keys) b a v t t' e h =
    elim (Bool-cases (bind_account o.broker o.account o.user_id t).0) [
      | inr refused ↦ absurd (none-ne-some t' (rw refused at e))
      | inl kept ↦
          write_owners-keeps keys b a v (bind_account o.broker o.account o.user_id t).1 t'
            (rw kept at e) (bind_account-keeps b a o.broker o.account o.user_id v t h)
    ]

-- What a scan that ends well binds: every key to its owner.
write_owners-binds :
    (o : Order) (keys : Orders) (k : Order) (t t' : AccountBindings)
    → write_owners keys t ≡ some t'
    → key_of o keys ≡ some k
    → owner_of o.broker o.account t' ≡ some k.user_id
write_owners-binds o [] k t t' e h = cc
write_owners-binds o (x ∷ keys) k t t' e h =
    elim (Bool-cases (bind_account x.broker x.account x.user_id t).0) [
      | inr refused ↦ absurd (none-ne-some t' (rw refused at e))
      | inl kept ↦ elim (Bool-cases (is_same_account o x)) [
        | inr other ↦
            write_owners-binds o keys k (bind_account x.broker x.account x.user_id t).1 t'
              (rw kept at e) (rw other at h)
        | inl same ↦
            let broker = (str_eq_iff x.broker o.broker).0 (ground arith) in
            let account = (str_eq_iff x.account o.account).0 (ground arith) in
            let it = some-injective x k (rw same at h) in
            rw (← broker, ← account, ← it)
              (write_owners-keeps keys x.broker x.account x.user_id
                (bind_account x.broker x.account x.user_id t).1 t' (rw kept at e)
                (bound_owner x.broker x.account x.user_id t kept))
      ]
    ]

has_conflict-clear :
    (t keys : Orders) (o k : Order)
    → has_conflict t keys ≡ false
    → key_of o keys ≡ some k
    → account_owned_by_other_user_in_orders k.broker k.account k.user_id t ≡ false
has_conflict-clear t [] o k h e = cc
has_conflict-clear t (x ∷ keys) o k h e = elim (Bool-cases (is_same_account o x)) [
  | inl same ↦ rw (← some-injective x k (rw same at e)) (ground arith)
  | inr other ↦ has_conflict-clear t keys o k (ground arith) (rw other at e)
]

-- An order of the table that no scan for another owner may miss.
abbrev IsSeen : Orders → Order → Type 0
IsSeen t o =
    (b a : String) (u : ℕ)
    → account_owned_by_other_user_in_orders b a u t ≡ false
    → is_other_owner b a u o ≡ false

All-IsSeen : (t : Orders) → All (IsSeen t) t
unfolding account_owned_by_other_user_in_orders
All-IsSeen [] = tt
All-IsSeen (x ∷ t) = (
  λ b a u h. elim (Bool-cases (is_other_owner b a u x)) [
    | inr clear ↦ clear
    | inl found ↦ absurd (true≢false (rw (found, account_owned_by_other_user_in_orders) at h))
  ],
  All-map t
      (λ o seen b a u h. elim (Bool-cases (is_other_owner b a u x)) [
        | inr clear ↦ seen b a u (rw (clear, account_owned_by_other_user_in_orders) at h)
        | inl found ↦ absurd (true≢false (rw (found, account_owned_by_other_user_in_orders) at h))
      ])
      (All-IsSeen t),
)

-- The user that the key of an order names is the order's.
same_user :
    (o k : Order) (keys : Orders)
    → key_of o keys ≡ some k
    → is_other_owner k.broker k.account k.user_id o ≡ false
    → k.user_id ≡ o.user_id
same_user o k [] e h = cc
same_user o k (x ∷ keys) e h = elim (Bool-cases (is_same_account o x)) [
  | inr other ↦ same_user o k keys (rw other at e) h
  | inl same ↦
      let it = some-injective x k (rw same at e) in
      let here : is_same_account o k ≡ true = subst (λ r. is_same_account o r ≡ true) it same in
      ground (
        arith,
        here,
        str_eq_iff k.broker o.broker,
        str_eq_iff k.account o.account,
        str_eq_refl o.broker,
        str_eq_refl o.account,
      )
]

-- After a backfill that is not stopped by a conflict, the pair of broker and account of every order
-- is bound to the user of the order.
pub backfill_account_bindings-binds :
    (orders : Orders) (t t' : AccountBindings)
    → backfill_account_bindings orders t ≡ some t'
    → All (λ o. owner_of o.broker o.account t' ≡ some o.user_id) orders
unfolding backfill_account_bindings
backfill_account_bindings-binds orders t t' e =
    elim (Bool-cases (has_conflict orders (owners orders []))) [
      | inl conflict ↦ absurd (none-ne-some t' (rw conflict at e))
      | inr clear ↦
          let written : write_owners (owners orders []) t ≡ some t' = rw clear at e in
          All-both orders
            (λ o (k, has) seen.
              let alone = has_conflict-clear orders (owners orders []) o k clear has in
              let owner =
                same_user o k (owners orders []) has (seen k.broker k.account k.user_id alone) in
              write_owners-binds o (owners orders []) k t t' written has ∙ ap some owner)
            (owners-HasKey orders []) (All-IsSeen orders)
    ]
