-- ===== src/Broker/Risk/Limits.antt =====
-- The daily limits, through any sequence of calls.
use quanquant.Base.{
  ℕ, ◌+◌, ◌-◌, ◌≤◌, ◌<◌, ◌≡◌, Bool, true, Option, List, [], ◌∷◌, ◌++◌, String, arith, Bool-cases,
  inl, inr, ap, if◌then◌else◌, ltb, str_eq_iff,
}
use quanquant.Base.Int.{pos_part}
use quanquant.Broker.Types.{Mode, mode_eq→eq}
use quanquant.Broker.Quota.{Quotas, confirm_quota, release_quota}
use quanquant.Broker.Quota.Laws.{IsWithin, reserve_quota-IsWithin}
use quanquant.Broker.Quota.Settling.{confirm_quota-used, release_quota-used}
use quanquant.Broker.Orders.{
  Order, Orders, NewOrder, created, create_order, order_row, placed_on, count_orders_today,
}
use quanquant.Broker.Orders.Table.{create_order-table}
use quanquant.Broker.Risk.{
  RiskGuard, KillSwitchState, Checked, passed, refused, value_error, Db, TokenData, PlaceCall,
  order_of, UpdateCall, reserve_delta, check_place, check_update, reservation_id_for_update,
  issue_confirm_token,
}
use quanquant.Broker.Risk.Effects.{
  PlaceEnds, UpdateEnds, issue_confirm_token-ends, check_place-PlaceEnds, check_update-UpdateEnds,
}

-- No user has more orders of a mode on a day than the limit.
abbrev pub OrdersWithin : ℕ → Orders → Type 0
OrdersWithin limit t = (u : ℕ) (m : Mode) (d : String) → count_orders_today u m d t ≤ limit

-- Both daily limits of the guard hold in the tables.
pub record IsLimited (g : RiskGuard) (db : Db) : Type 0 where
  pub quantity : IsWithin g.max_qty_per_day db.quotas
  pub count : OrdersWithin g.max_orders_per_day db.orders

count-snoc :
    (u : ℕ) (m : Mode) (d : String) (t : Orders) (o : Order)
    → count_orders_today u m d (t ++ o ∷ [])
      ≡ count_orders_today u m d t + (if placed_on u m d o then 1 else 0)
unfolding count_orders_today
count-snoc u m d [] o = ground arith
count-snoc u m d (r ∷ t) o = ground (arith, count-snoc u m d t o)

placed_on-holds :
    (u : ℕ) (m : Mode) (d : String) (o : Order)
    → placed_on u m d o ≡ true
    → (o.user_id ≡ u) × (o.mode ≡ m) × (o.trading_day ≡ d)
placed_on-holds u m d o h = ground (arith, mode_eq→eq o.mode m, str_eq_iff o.trading_day d)

-- A creation for a scope that is under the limit keeps every scope within it.
create-OrdersWithin :
    (limit : ℕ) (n : NewOrder) (now : ℕ) (t t' : Orders) (o : Order)
    → create_order n now t ≡ created o t'
    → count_orders_today n.user_id n.mode n.trading_day t < limit
    → OrdersWithin limit t
    → OrdersWithin limit t'
create-OrdersWithin limit n now t t' o e few h u m d = elim (create_order-table n now t o t' e) [
  | inl same ↦ rw same (h u m d)
  | inr more ↦
      rw (more, count-snoc u m d t (order_row n now t))
        (elim (Bool-cases (placed_on u m d (order_row n now t))) [
          | inr miss ↦ rw miss (omega (arith, h u m d))
          | inl hit ↦
              let (user, mode, day) = placed_on-holds u m d (order_row n now t) hit in
              rw (hit, ← user, ← mode, ← day) (omega arith)
        ])
]

-- What the clients and the broker's answers do to the tables of the guard.
pub data GuardCall : Type 0 where
  place : KillSwitchState → PlaceCall → GuardCall
  update : KillSwitchState → UpdateCall → GuardCall
  issue : (jti : String) (actor : ℕ) (payload_hash : String) (now : ℕ) → GuardCall
  confirm release : String → GuardCall

module _ (loads : ℕ → String → Option TokenData) (day_for : ℕ → String) (g : RiskGuard) where
  unfoldable pub guarded_call : GuardCall → Db → Db
  guarded_call (place k c) db = (check_place loads day_for g k c db).1
  guarded_call (update k c) db = (check_update loads g k c db).1
  guarded_call (issue jti actor h now) db = (issue_confirm_token g jti actor h now db).1
  guarded_call (confirm id) db = record db { quotas = (confirm_quota id db.quotas).1 }
  guarded_call (release id) db = record db { quotas = (release_quota id db.quotas).1 }

  unfoldable pub guarded_run : List GuardCall → Db → Db
  guarded_run [] db = db
  guarded_run (c ∷ cs) db = guarded_run cs (guarded_call c db)

  place-IsLimited :
      (k : KillSwitchState) (c : PlaceCall) (db : Db) (r : Checked Order × Db)
      → PlaceEnds loads g k c (day_for c.now) db r
      → IsLimited g db
      → IsLimited g r.1
  place-IsLimited k c db (passed o, db') (may, placed) h = record {
    quantity = rw (← ap (λ (p : Bool × Quotas). p.1) placed.reserved) (
        reserve_quota-IsWithin c.req.client_order_id c.actor_user_id c.mode (day_for c.now)
          c.req.qty g.max_qty_per_day db.quotas h.quantity);
    count =
        create-OrdersWithin g.max_orders_per_day (order_of c (day_for c.now)) c.now db.orders
          db'.orders o placed.ordered may.few h.count;
  }
  place-IsLimited k c db (refused r, db') e h =
      rw e (record { quantity = h.quantity; count = h.count })
  place-IsLimited k c db (value_error, db') (e, _) h = rw e h

  reserve_delta-IsWithin :
      (c : UpdateCall) (q : Quotas)
      → IsWithin g.max_qty_per_day q
      → IsWithin g.max_qty_per_day (reserve_delta g c q).1
  unfolding reserve_delta
  reserve_delta-IsWithin c q h = elim (Bool-cases (ltb c.order.qty (pos_part c.new_qty))) [
    | inl more ↦ rw more (
        reserve_quota-IsWithin (reservation_id_for_update c.order.client_order_id c.request_hash)
          c.actor_user_id c.order.mode c.order.trading_day (pos_part c.new_qty - c.order.qty)
          g.max_qty_per_day q h)
    | inr less ↦ rw less h
  ]

  update-IsLimited :
      (k : KillSwitchState) (c : UpdateCall) (db : Db) (r : Checked (Unit {0}) × Db)
      → UpdateEnds loads g k c db r
      → IsLimited g db
      → IsLimited g r.1
  update-IsLimited k c db (passed _, db') (may, done) h = record {
    quantity =
        rw (← ap (λ (p : Bool × Quotas). p.1) done.reserved)
          (reserve_delta-IsWithin c db.quotas h.quantity);
    count = rw done.orders h.count;
  }
  update-IsLimited k c db (refused r, db') e h =
      rw e (record { quantity = h.quantity; count = h.count })
  update-IsLimited k c db (value_error, db') e h = absurd e

  guarded_call-IsLimited :
      (c : GuardCall) (db : Db) → IsLimited g db → IsLimited g (guarded_call c db)
  unfolding guarded_call
  guarded_call-IsLimited (place k c) db h =
      place-IsLimited k c db (check_place loads day_for g k c db)
        (check_place-PlaceEnds loads g k day_for c db) h
  guarded_call-IsLimited (update k c) db h =
      update-IsLimited k c db (check_update loads g k c db) (check_update-UpdateEnds loads g k c db)
        h
  guarded_call-IsLimited (issue jti actor p now) db h =
      elim (issue_confirm_token-ends g jti actor p now db) [
        | inl (_, e) ↦ rw e (record { quantity = h.quantity; count = h.count })
        | inr (_, e) ↦ rw e h
      ]
  guarded_call-IsLimited (confirm id) db h = record {
    quantity = λ u m d. rw (confirm_quota-used id u m d db.quotas) (h.quantity u m d);
    count = h.count;
  }
  guarded_call-IsLimited (release id) db h = record {
    quantity = λ u m d. omega (arith, release_quota-used id u m d db.quotas, h.quantity u m d);
    count = h.count;
  }

  -- From tables within both daily limits, any sequence of placements, changes, tokens issued,
  -- confirmations and releases, by whom and in what order ever, keeps every user, mode and day within the limits on
  -- quantity and on the number of orders.
  pub guarded_run-IsLimited :
      (calls : List GuardCall) (db : Db) → IsLimited g db → IsLimited g (guarded_run calls db)
  unfolding guarded_run
  guarded_run-IsLimited [] db h = h
  guarded_run-IsLimited (c ∷ cs) db h =
      guarded_run-IsLimited cs (guarded_call c db) (guarded_call-IsLimited c db h)
