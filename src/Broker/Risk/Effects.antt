-- ===== src/Broker/Risk/Effects.antt =====
-- What a call of the guard has done, by how it ended.
use quanquant.Base.{
  ℕ, ◌+◌, ◌-◌, ◌≤◌, ◌<◌, ◌≡◌, refl, sym, ap, ◌∙◌, arith, some, ltb, find?, Bool, true, false,
  Option, none, [], ◌∷◌, ◌++◌, String, Option-cases, Bool-cases, inl, inr, ◌⊎◌,
}
use native.Mathlib.Decide.{dec_le}
use quanquant.Base.Int.{pos_part}
use quanquant.Broker.Quota.{
  Quotas, QuotaReservation, reserve_quota, by_id, active_state, quota_used_today,
}
use quanquant.Broker.Quota.Laws.{
  with_reservation, reserve_quota_old, reserve_quota_new, reserve_quota_full,
}
use quanquant.Broker.Tokens.{Tokens, create_confirm_token_row}
use quanquant.Broker.Orders.{Order, Created, created, payload_differs, create_order}
use quanquant.Broker.Risk.{
  RiskGuard, KillSwitchState, is_owner, Checked, passed, refused, value_error, Db, TokenData,
  PlaceCall, order_of, place_gate, UpdateCall, update_gate, reserve_delta, confirmed, place_write,
  check_place, update_write, check_update, place_order, place_finish, update_finish, audit_reject,
  audit_row, issue_confirm_token, reservation_id_for_update,
}
use quanquant.Broker.Risk.Gate.{MayPlace, MayUpdate, place_gate-MayPlace, update_gate-MayUpdate}

-- A placement that passed: the reservation, the confirmation and the creation succeeded, the tables
-- are theirs, and one audit row is new.
pub record Placed (loads : ℕ → String → Option TokenData) (g : RiskGuard) (c : PlaceCall)
    (day : String) (db : Db) (o : Order) (db' : Db) : Type 0 where
  pub reserved :
      reserve_quota c.req.client_order_id c.actor_user_id c.mode day c.req.qty g.max_qty_per_day
        db.quotas
      ≡ (true, db'.quotas)
  pub claimed :
      confirmed loads c.mode c.actor_user_id c.request_hash c.confirm_token c.now db.tokens
      ≡ (true, db'.tokens)
  pub ordered : create_order (order_of c day) c.now db.orders ≡ created o db'.orders
  pub cooldowns : db'.cooldowns ≡ db.cooldowns
  pub audited : db'.audits ≡ db.audits ++ audit_row c.actor_user_id c.mode "place" "ok" none ∷ []

-- The quota after an update: a quantity that does not grow reserves nothing; the growth is one new
-- reserved row, within the limit of the day, unless the reservation is in force already.
abbrev pub ReservedGrowth : RiskGuard → UpdateCall → Quotas → Quotas → Type 0
ReservedGrowth g c q q' =
    let id = reservation_id_for_update c.order.client_order_id c.request_hash in
    let grown = pos_part c.new_qty - c.order.qty in
    let u = c.actor_user_id in
    let m = c.order.mode in
    let d = c.order.trading_day in
    ((pos_part c.new_qty ≤ c.order.qty) × (q' ≡ q))
    ⊎ ((c.order.qty < pos_part c.new_qty)
        × ((((r : QuotaReservation) × (find? (by_id id) q ≡ some r)
              × (active_state r.state ≡ true)
              × (q' ≡ q)))
            ⊎ ((find? (by_id id) q ≡ none)
                × (quota_used_today u m d q + grown ≤ g.max_qty_per_day)
                × (q' ≡ with_reservation id u m d grown q))))

reserve_delta-ReservedGrowth :
    (g : RiskGuard) (c : UpdateCall) (q q' : Quotas)
    → reserve_delta g c q ≡ (true, q')
    → ReservedGrowth g c q q'
unfolding reserve_delta
reserve_delta-ReservedGrowth g c q q' e =
    let id = reservation_id_for_update c.order.client_order_id c.request_hash in
    let grown = pos_part c.new_qty - c.order.qty in
    let u = c.actor_user_id in
    let m = c.order.mode in
    let d = c.order.trading_day in
    let limit = g.max_qty_per_day in
    elim (Bool-cases (ltb c.order.qty (pos_part c.new_qty))) [
      | inr same ↦
          let kept : ◌≡◌ {A = Bool × Quotas} (true, q) (true, q') = rw same at e in
          inl (ground (arith, same), ap (λ (x : Bool × Quotas). x.1) (sym kept))
      | inl more ↦
          let reserved : reserve_quota id u m d grown limit q ≡ (true, q') = rw more at e in
          inr (
            ground (arith, more),
            elim (Option-cases (find? (by_id id) q)) [
              | inr (r, found) ↦
                  let same = sym (reserve_quota_old id u m d grown limit q r found) ∙ reserved in
                  inl (
                    r,
                    found,
                    ap (λ (x : Bool × Quotas). x.0) same,
                    ap (λ (x : Bool × Quotas). x.1) (sym same),
                  )
              | inl fresh ↦ elim (dec_le (quota_used_today u m d q + grown) limit) [
                | yes fits ↦
                    let same =
                      sym (reserve_quota_new id u m d grown limit q fresh fits) ∙ reserved in
                    inr (fresh, fits, ap (λ (x : Bool × Quotas). x.1) (sym same))
                | no full ↦
                    let refused =
                      sym (reserve_quota_full id u m d grown limit q fresh full) ∙ reserved in
                    absurd (cc (ap (λ (x : Bool × Quotas). x.0) refused))
              ]
            ],
          )
    ]

-- An update that passed: the same for the quota of what the quantity grows by.
pub record Updated (loads : ℕ → String → Option TokenData) (g : RiskGuard) (c : UpdateCall)
    (db db' : Db) : Type 0 where
  pub reserved : reserve_delta g c db.quotas ≡ (true, db'.quotas)
  pub grown : ReservedGrowth g c db.quotas db'.quotas
  pub claimed :
      confirmed loads c.order.mode c.actor_user_id c.request_hash c.confirm_token c.now db.tokens
      ≡ (true, db'.tokens)
  pub orders : db'.orders ≡ db.orders
  pub cooldowns : db'.cooldowns ≡ db.cooldowns
  pub audited :
      db'.audits ≡ db.audits ++ audit_row c.actor_user_id c.order.mode "update" "ok" none ∷ []

-- What a call has left in the tables, by how it ended.
abbrev pub PlaceEnds :
    (ℕ → String → Option TokenData)
    → RiskGuard
    → KillSwitchState
    → PlaceCall
    → String
    → Db
    → Checked Order × Db
    → Type 0
PlaceEnds loads g k c day db (passed o, db') = MayPlace g k c day db × Placed loads g c day db o db'
PlaceEnds loads g k c day db (refused r, db') = db' ≡ audit_reject c.actor_user_id c.mode "place" db
PlaceEnds loads g k c day db (value_error, db') =
    (db' ≡ db) × (create_order (order_of c day) c.now db.orders ≡ payload_differs)

abbrev pub UpdateEnds :
    (ℕ → String → Option TokenData)
    → RiskGuard
    → KillSwitchState
    → UpdateCall
    → Db
    → Checked (Unit {0}) × Db
    → Type 0
UpdateEnds loads g k c db (passed _, db') = MayUpdate g k c × Updated loads g c db db'
UpdateEnds loads g k c db (refused r, db') =
    db' ≡ audit_reject c.actor_user_id c.order.mode "update" db
UpdateEnds loads g k c db (value_error, db') = ⊥

module _ (loads : ℕ → String → Option TokenData) (g : RiskGuard) (k : KillSwitchState) where
  place_order-PlaceEnds :
      (c : PlaceCall) (day : String) (db : Db) (q : Quotas) (t : Tokens) (r : Created)
      → MayPlace g k c day db
      → reserve_quota c.req.client_order_id c.actor_user_id c.mode day c.req.qty g.max_qty_per_day
          db.quotas
        ≡ (true, q)
      → confirmed loads c.mode c.actor_user_id c.request_hash c.confirm_token c.now db.tokens
        ≡ (true, t)
      → create_order (order_of c day) c.now db.orders ≡ r
      → PlaceEnds loads g k c day db (place_order c q t db r)
  place_order-PlaceEnds c day db q t payload_differs may er et eo = (refl, eo)
  place_order-PlaceEnds c day db q t (created o orders') may er et eo =
      (may, record { reserved = er; claimed = et; ordered = eo; cooldowns = refl; audited = refl })

  place_finish-PlaceEnds :
      (c : PlaceCall) (day : String) (db : Db) (r : Bool × Quotas) (s : Bool × Tokens)
      → MayPlace g k c day db
      → reserve_quota c.req.client_order_id c.actor_user_id c.mode day c.req.qty g.max_qty_per_day
          db.quotas
        ≡ r
      → confirmed loads c.mode c.actor_user_id c.request_hash c.confirm_token c.now db.tokens ≡ s
      → PlaceEnds loads g k c day db (place_finish c day db r s)
  place_finish-PlaceEnds c day db (false, q) s may er et = refl
  place_finish-PlaceEnds c day db (true, q) (false, t) may er et = refl
  place_finish-PlaceEnds c day db (true, q) (true, t) may er et =
      place_order-PlaceEnds c day db q t (create_order (order_of c day) c.now db.orders) may er et
        refl

  -- A placement that passes satisfied every check, and it reserved, confirmed, created (or found the
  -- order of the same request) and audited in one step; one that is refused leaves one audit row and
  -- nothing else; the only other ending is the error of a key that another request has used, which
  -- leaves nothing.
  pub check_place-PlaceEnds :
      (day_for : ℕ → String) (c : PlaceCall) (db : Db)
      → PlaceEnds loads g k c (day_for c.now) db (check_place loads day_for g k c db)
  unfolding check_place place_write
  check_place-PlaceEnds day_for c db = elim (Option-cases (place_gate g k c (day_for c.now) db)) [
    | inr (r, e) ↦ rw (e, check_place) refl
    | inl e ↦
        rw (e, check_place)
          (place_finish-PlaceEnds c (day_for c.now) db _ _
            (place_gate-MayPlace g k c (day_for c.now) db e) refl refl)
  ]

  update_finish-UpdateEnds :
      (c : UpdateCall) (db : Db) (r : Bool × Quotas) (s : Bool × Tokens)
      → MayUpdate g k c
      → reserve_delta g c db.quotas ≡ r
      → confirmed loads c.order.mode c.actor_user_id c.request_hash c.confirm_token c.now db.tokens
        ≡ s
      → UpdateEnds loads g k c db (update_finish c db r s)
  update_finish-UpdateEnds c db (false, q) s may er et = refl
  update_finish-UpdateEnds c db (true, q) (false, t) may er et = refl
  update_finish-UpdateEnds c db (true, q) (true, t) may er et = (
    may,
    record {
      reserved = er;
      grown = reserve_delta-ReservedGrowth g c db.quotas q er;
      claimed = et;
      orders = refl;
      cooldowns = refl;
      audited = refl;
    },
  )

  -- A change that passes satisfied every check, confirmed and audited, wrote no order, and reserved
  -- exactly what the new quantity exceeds the old one by, in one new row within the limit of the day:
  -- nothing where the quantity does not grow, and nothing more where that reservation is in force
  -- already. One that is refused leaves one audit row and nothing else.
  pub check_update-UpdateEnds :
      (c : UpdateCall) (db : Db) → UpdateEnds loads g k c db (check_update loads g k c db)
  unfolding check_update update_write
  check_update-UpdateEnds c db = elim (Option-cases (update_gate g k c)) [
    | inr (r, e) ↦ rw (e, check_update) refl
    | inl e ↦
        rw (e, check_update)
          (update_finish-UpdateEnds c db _ _ (update_gate-MayUpdate g k c e) refl refl)
  ]

-- An owner's token is one new row; nobody else's leaves anything.
pub issue_confirm_token-ends :
    (g : RiskGuard) (jti : String) (actor : ℕ) (payload_hash : String) (now : ℕ) (db : Db)
    → ((is_owner g actor ≡ true)
        × ((issue_confirm_token g jti actor payload_hash now db).1 ≡ record db {
          tokens =
              create_confirm_token_row jti actor payload_hash
                (now + g.confirm_token_ttl_ms)
                db.tokens;
        }))
      ⊎ ((is_owner g actor ≡ false)
          × ((issue_confirm_token g jti actor payload_hash now db).1 ≡ db))
unfolding issue_confirm_token
issue_confirm_token-ends g jti actor payload_hash now db = elim (Bool-cases (is_owner g actor)) [
  | inl held ↦ inl (held, rw held refl)
  | inr failed ↦ inr (failed, rw failed refl)
]
