-- ===== src/Broker/Watchdog/Verdicts.antt =====
-- A pass of the watchdog over the orders whose outcome is unknown, against what each of them in turn
-- says of a reservation.
use quanquant.Base.{
  ℕ, ◌-◌, String, ◌≡◌, Bool, Option, none, some, List, [], ◌∷◌, inl, inr, if◌then◌else◌, find?,
  select, Bool-cases, Option-cases,
}
use quanquant.Broker.Quota.{QuotaReservation, released, by_id, release_quota}
use quanquant.Broker.Quota.Laws.{IsUnique}
use quanquant.Broker.Orders.{Order, list_unknown_orders_older_than, is_null}
use quanquant.Broker.Watchdog.{
  WatchdogPass, never_arrived, is_waiting_update, list_reserved_update_reservations,
  reconcile_order, reconcile_orders, reconcile_unknown_quota,
}
use quanquant.Broker.Watchdog.Settled.{settled, find-settle, settle-IsUnique}
use quanquant.Broker.Watchdog.Decided.{
  decide_told, find-settle_reservations, settle_reservations-IsUnique, listed, either_way,
}

module _ (is_update_of : String → String → Bool) (ask : Option (Order → Option ℕ)) where
  -- What one order says of a reservation: one that never arrived gives its own back; else the broker's
  -- quantity decides the reservations of its updates that wait, and where it is not known, nothing does.
  abbrev pub verdict : Order → QuotaReservation → QuotaReservation
  verdict o r =
      if never_arrived o
      then (if by_id o.client_order_id r then settled released r else r)
      else elim ask [
        | none ↦ r
        | some answer ↦
            if is_null o.ordno
            then r
            else if is_waiting_update is_update_of o.client_order_id r
            then decide_told (answer o) o r
            else r
      ]

  abbrev pub verdicts : List Order → QuotaReservation → QuotaReservation
  verdicts [] r = r
  verdicts (o ∷ os) r = verdicts os (verdict o r)

  find-reconcile_order :
      (now : ℕ) (o : Order) (p : WatchdogPass) (id : String) (r : QuotaReservation)
      → IsUnique p.quotas
      → find? (by_id id) p.quotas ≡ some r
      → find? (by_id id) (reconcile_order is_update_of ask now o p).quotas ≡ some (verdict o r)
  unfolding reconcile_order release_quota list_reserved_update_reservations
  find-reconcile_order now o p id r u h = elim (Bool-cases (never_arrived o)) [
    | inl lost ↦ rw lost (find-settle released o.client_order_id id p.quotas r h)
    | inr arrived ↦ elim (Option-cases ask) [
      | inl mute ↦ rw (arrived, mute) h
      | inr (answer, asked) ↦ elim (Bool-cases (is_null o.ordno)) [
        | inl unnamed ↦ rw (arrived, asked, unnamed) h
        | inr named ↦
            let (same, agrees) =
              listed (is_waiting_update is_update_of o.client_order_id) id p.quotas r u h in
            elim (Option-cases (answer o)) [
              | inl silent ↦ rw (arrived, asked, named, silent, either_way) h
              | inr (q, told) ↦
                  let found =
                    find-settle_reservations q o id
                      (select (is_waiting_update is_update_of o.client_order_id) p.quotas) p.quotas
                      r agrees h in
                  rw (arrived, asked, named, told) (rw same at found)
            ]
      ]
    ]
  ]

  reconcile_order-IsUnique :
      (now : ℕ) (o : Order) (p : WatchdogPass)
      → IsUnique p.quotas
      → IsUnique (reconcile_order is_update_of ask now o p).quotas
  unfolding reconcile_order release_quota
  reconcile_order-IsUnique now o p u = elim (Bool-cases (never_arrived o)) [
    | inl lost ↦ rw lost (settle-IsUnique released o.client_order_id p.quotas u)
    | inr arrived ↦ elim (Option-cases ask) [
      | inl mute ↦ rw (arrived, mute) u
      | inr (answer, asked) ↦ elim (Bool-cases (is_null o.ordno)) [
        | inl unnamed ↦ rw (arrived, asked, unnamed) u
        | inr named ↦ elim (Option-cases (answer o)) [
          | inl silent ↦ rw (arrived, asked, named, silent) u
          | inr (q, told) ↦
              rw (arrived, asked, named, told)
                (settle_reservations-IsUnique q o
                  (list_reserved_update_reservations is_update_of o.client_order_id p.quotas)
                  p.quotas u)
        ]
      ]
    ]
  ]

  find-reconcile_orders :
      (now : ℕ) (os : List Order) (p : WatchdogPass) (id : String) (r : QuotaReservation)
      → IsUnique p.quotas
      → find? (by_id id) p.quotas ≡ some r
      → find? (by_id id) (reconcile_orders is_update_of ask now os p).quotas ≡ some (verdicts os r)
  unfolding reconcile_orders
  find-reconcile_orders now [] p id r u h = h
  find-reconcile_orders now (o ∷ os) p id r u h =
      find-reconcile_orders now os (reconcile_order is_update_of ask now o p) id (verdict o r)
        (reconcile_order-IsUnique now o p u) (find-reconcile_order now o p id r u h)

  -- Where reservation ids are unique, a pass of the watchdog leaves of each reservation what the
  -- verdicts of the unknown orders, at most 200 that have not moved for the grace period, make of it
  -- in turn: an order that never arrived gives back its own reservation, a quantity at the broker that
  -- is the new one confirms a waiting update and one that is the old one gives it back, and where the
  -- broker says anything else or nothing the reservation stays as it is.
  pub reconcile_unknown_quota-verdicts :
      (grace_ms now : ℕ) (p : WatchdogPass) (id : String) (r : QuotaReservation)
      → IsUnique p.quotas
      → find? (by_id id) p.quotas ≡ some r
      → find? (by_id id) (reconcile_unknown_quota is_update_of ask grace_ms now p).quotas
        ≡ some (verdicts (list_unknown_orders_older_than (now - grace_ms) 200 p.orders) r)
  unfolding reconcile_unknown_quota
  reconcile_unknown_quota-verdicts grace_ms now p id r u h =
      find-reconcile_orders now (list_unknown_orders_older_than (now - grace_ms) 200 p.orders) p id
        r u h
