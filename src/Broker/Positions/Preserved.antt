-- ===== src/Broker/Positions/Preserved.antt =====
-- The invariant of the position table through a fill: opening, closing, the trade of a round trip
-- and a reversal.
use quanquant.Base.{
  ℕ, ◌+◌, ◌-◌, ◌≤◌, ◌<◌, ◌≡◌, refl, Bool, true, false, Option, none, some, [], ◌∷◌, ◌++◌, arith,
  leb, ltb, min, if◌then◌else◌, Bool-cases, Option-cases, inl, inr, All,
}
use quanquant.Base.Int.{ℤ, ◌*ℕ◌}
use quanquant.Broker.Types.{Direction, OcType, new, cover, auto}
use quanquant.Broker.Orders.{Order}
use quanquant.Broker.Positions.{
  Decimals, Scope, BrokerPosition, Positions, Fill, fill_scope, find_open_position, remaining_qty,
  Ledger, ok, cas_update_broker_position, open_qty, new_position, more_opened, more_closed,
  covers_direction, news_direction, open_in, audit_fill,
}
use quanquant.Broker.Positions.Fills.{
  resolve_fee, resolve_order, round_trip, trade_accepted, finalize, fee_consumed, open_fill,
  reverse_excess, close_position, close_fill, auto_fill, dispatch, apply_fill, write_audit,
  fill_order,
}
use quanquant.Broker.Positions.Rows.{ok_injective, >>=-eq-ok, cas_update-Has, Has, found-Has}
use quanquant.Broker.Positions.Measures.{find_open_position-holds}
use quanquant.Broker.Positions.Invariant.{
  IsValidRow, IsValid, cas_update-IsValid, new_position-IsValid,
}

row-IsValidRow : (p : BrokerPosition) (t : Positions) → All IsValidRow t → Has p t → IsValidRow p
row-IsValidRow p [] v h = absurd h
row-IsValidRow p (r ∷ t) v (inl e) = rw (← e) v.0
row-IsValidRow p (r ∷ t) v (inr h) = row-IsValidRow p t v.1 h

module _ (dec : Decimals) where
  more_opened-IsValidRow :
      (q : ℕ) (price fee : ℤ) (p : BrokerPosition)
      → IsValidRow p
      → p.is_open ≡ true
      → IsValidRow (more_opened dec q price fee p)
  more_opened-IsValidRow q price fee p v live = record {
    opened = omega (arith, v.opened);
    closes = omega (arith, v.closes);
    status = (let s = v.status in ground arith);
  }

  more_closed-IsValidRow :
      (n : ℕ) (price fee : ℤ) (p : BrokerPosition)
      → IsValidRow p
      → p.is_open ≡ true
      → n ≤ remaining_qty p
      → IsValidRow (more_closed dec n price fee p)
  more_closed-IsValidRow n price fee p v live fits = record {
    opened = v.opened;
    closes = omega (arith, v.closes);
    status = ground arith;
  }

  open_qty-IsValid :
      (s : Scope) (d : Direction) (q : ℕ) (price fee : ℤ) (at now : ℕ) (t : Positions)
      {t' : Positions}
      → IsValid t
      → 0 < q
      → open_qty dec s d q price fee at now t ≡ ok t'
      → IsValid t'
  unfolding open_qty
  open_qty-IsValid s d q price fee at now t {t'} v some_lots e =
      elim (Option-cases (find_open_position s d t)) [
        | inl free ↦
            let result : t ++ new_position s d q price fee at now t ∷ [] ≡ t' =
              ok_injective (rw (free, open_qty) at e) in
            rw (← result) (new_position-IsValid s d q price fee at now t v some_lots free)
        | inr (p, found) ↦
            let (r, wrote, result) =
              >>=-eq-ok (cas_update_broker_position p (more_opened dec q price fee p) now t)
                (λ r. ok r.1) (rw (found, open_qty) at e) in
            let (_, _, live) = find_open_position-holds s d t found in
            let there = found-Has (open_in s d) p t found in
            rw (← ok_injective result) (
              cas_update-IsValid p (more_opened dec q price fee p) now t v there refl
                (more_opened-IsValidRow q price fee p (row-IsValidRow p t v.rows there) live)
                (λ _ _ h. h) wrote)
      ]

  finalize-IsValid :
      (u : ℕ) (p : BrokerPosition) (ts now : ℕ) (l : Ledger) {l' : Ledger}
      → IsValid l.positions
      → Has p l.positions
      → finalize dec u p ts now l ≡ ok l'
      → IsValid l'.positions
  unfolding finalize
  finalize-IsValid u p ts now l {l'} v h e =
      elim (Bool-cases (trade_accepted dec (round_trip dec u p ts l))) [
        | inl good ↦
            let p' : BrokerPosition = record p { trade_id = some l.next_trade } in
            let row = row-IsValidRow p l.positions v.rows h in
            let (r, wrote, result) =
              >>=-eq-ok (cas_update_broker_position p p' now l.positions) _
                (rw (good, finalize) at e) in
            rw (← ok_injective result) (
              cas_update-IsValid p p' now l.positions v h refl
                (record { opened = row.opened; closes = row.closes; status = row.status })
                (λ _ _ k. k) wrote)
        | inr bad ↦ absurd (cc (bad, e))
      ]

  settle-IsValid :
      (b : Bool) (u : ℕ) (p : BrokerPosition) (ts now : ℕ) (l : Ledger) {l' : Ledger}
      → IsValid l.positions
      → Has p l.positions
      → (if b then finalize dec u p ts now l else ok l) ≡ ok l'
      → IsValid l'.positions
  settle-IsValid true u p ts now l v h e = finalize-IsValid u p ts now l v h e
  settle-IsValid false u p ts now l v h e = rw (← ok_injective e) v

  reverse_excess-IsValid :
      (u : ℕ) (f : Fill) (fee : ℤ) (excess now : ℕ) (l : Ledger) {l' : Ledger}
      → IsValid l.positions
      → reverse_excess dec u f fee excess now l ≡ ok l'
      → IsValid l'.positions
  unfolding reverse_excess
  reverse_excess-IsValid u f fee excess now l {l'} v e = elim (Bool-cases (ltb 0 excess)) [
    | inl more ↦
        let (t', opens, result) =
          >>=-eq-ok
            (open_qty dec (fill_scope u f) (news_direction f.action) excess f.price
              (dec.quot (fee *ℕ excess) f.qty) f.ts now l.positions)
            _ (rw (more, reverse_excess) at e) in
        rw (← ok_injective result) (
          open_qty-IsValid (fill_scope u f) (news_direction f.action) excess f.price
            (dec.quot (fee *ℕ excess) f.qty) f.ts now l.positions v (ground arith) opens)
    | inr nothing ↦ rw (← ok_injective (rw (nothing, reverse_excess) at e)) v
  ]

  close_position-IsValid :
      (u : ℕ) (f : Fill) (p : BrokerPosition) (d : Direction) (fee : ℤ) (now : ℕ) (l : Ledger)
      {l' : Ledger}
      → IsValid l.positions
      → find_open_position (fill_scope u f) d l.positions ≡ some p
      → close_position dec u f p fee now l ≡ ok l'
      → IsValid l'.positions
  unfolding close_position
  close_position-IsValid u f p d fee now l {l'} v found e =
      let consumed = min f.qty (remaining_qty p) in
      let excess = f.qty - consumed in
      let p' = more_closed dec consumed f.price (fee_consumed dec f fee excess) p in
      let (r, wrote, rest) = >>=-eq-ok (cas_update_broker_position p p' now l.positions) _ e in
      let (l2, settled, reversed) =
        >>=-eq-ok
          (if leb p.total_opened_qty (p.closed_qty + consumed)
            then finalize dec u r.0 f.ts now (record l { positions = r.1 })
            else ok (record l { positions = r.1 }))
          _ rest in
      let (_, _, live) = find_open_position-holds (fill_scope u f) d l.positions found in
      let there = found-Has (open_in (fill_scope u f) d) p l.positions found in
      let after_write : IsValid r.1 =
        cas_update-IsValid p p' now l.positions v there refl
          (more_closed-IsValidRow consumed f.price (fee_consumed dec f fee excess) p
            (row-IsValidRow p l.positions v.rows there) live (omega arith))
          (λ s k h. ground arith) wrote in
      reverse_excess-IsValid u f fee excess now (write_audit (audit_fill u f.mode "close") l2)
        (settle-IsValid (leb p.total_opened_qty (p.closed_qty + consumed)) u r.0 f.ts now
          (record l { positions = r.1 }) after_write (cas_update-Has p p' now l.positions wrote).1
          settled)
        reversed

  close_fill-IsValid :
      (u : ℕ) (f : Fill) (d : Direction) (fee : ℤ) (now : ℕ) (l : Ledger) {l' : Ledger}
      → IsValid l.positions
      → close_fill dec u f d fee now l ≡ ok l'
      → IsValid l'.positions
  unfolding close_fill
  close_fill-IsValid u f d fee now l {l'} v e =
      elim (Option-cases (find_open_position (fill_scope u f) d l.positions)) [
        | inl missing ↦ absurd (cc (rw (missing, close_fill) at e))
        | inr (p, found) ↦
            close_position-IsValid u f p d fee now l v found (rw (found, close_fill) at e)
      ]

  open_fill-IsValid :
      (u : ℕ) (f : Fill) (d : Direction) (fee : ℤ) (now : ℕ) (l : Ledger) {l' : Ledger}
      → IsValid l.positions
      → 0 < f.qty
      → open_fill dec u f d fee now l ≡ ok l'
      → IsValid l'.positions
  unfolding open_fill
  open_fill-IsValid u f d fee now l {l'} v some_lots e =
      let (t', opens, result) =
        >>=-eq-ok (open_qty dec (fill_scope u f) d f.qty f.price fee f.ts now l.positions) _ e in
      rw (← ok_injective result) (
        open_qty-IsValid (fill_scope u f) d f.qty f.price fee f.ts now l.positions v some_lots
          opens)

  auto_fill-IsValid :
      (u : ℕ) (f : Fill) (fee : ℤ) (now : ℕ) (l : Ledger) {l' : Ledger}
      → IsValid l.positions
      → 0 < f.qty
      → auto_fill dec u f fee now l ≡ ok l'
      → IsValid l'.positions
  unfolding auto_fill
  auto_fill-IsValid u f fee now l {l'} v some_lots e =
      elim (Option-cases
        (find_open_position (fill_scope u f) (covers_direction f.action) l.positions)) [
          | inl nothing ↦
              open_fill-IsValid u f (news_direction f.action) fee now l v some_lots
                (rw (nothing, auto_fill) at e)
          | inr (p, found) ↦
              elim (Option-cases
                (find_open_position (fill_scope u f) (news_direction f.action) l.positions)) [
                  | inl one_side ↦
                      close_fill-IsValid u f (covers_direction f.action) fee now l v
                        (rw (found, one_side, auto_fill) at e)
                  | inr (q, both) ↦ absurd (cc (rw (found, both, auto_fill) at e))
                ]
        ]

  dispatch-IsValid :
      (c : OcType) (u : ℕ) (f : Fill) (fee : ℤ) (now : ℕ) (l : Ledger) {l' : Ledger}
      → IsValid l.positions
      → 0 < f.qty
      → dispatch dec c u f fee now l ≡ ok l'
      → IsValid l'.positions
  unfolding dispatch
  dispatch-IsValid new u f fee now l v some_lots e =
      open_fill-IsValid u f (news_direction f.action) fee now l v some_lots e
  dispatch-IsValid cover u f fee now l v some_lots e =
      close_fill-IsValid u f (covers_direction f.action) fee now l v e
  dispatch-IsValid auto u f fee now l v some_lots e = auto_fill-IsValid u f fee now l v some_lots e

  fill_order-IsValid :
      (f : Fill) (now : ℕ) (o : Option Order) (l : Ledger)
      → IsValid l.positions
      → IsValid (fill_order dec f now o l).positions
  fill_order-IsValid f now none l v = v
  fill_order-IsValid f now (some o) l v = v

-- A fill that passes its own checks and is accepted leaves a valid table valid: no position is
-- closed by more than it was opened, one is open exactly while lots remain, and a scope never has
-- two open positions in a direction.
pub apply_fill-IsValid :
    (dec : Decimals) (u : ℕ) (f : Fill) (now : ℕ) (l : Ledger) {l' : Ledger}
    → IsValid l.positions
    → 0 < f.qty
    → apply_fill dec u f now l ≡ ok l'
    → IsValid l'.positions
unfolding apply_fill
apply_fill-IsValid dec u f now l {l'} v some_lots e =
    let (fee, _, e1) = >>=-eq-ok (resolve_fee dec f) _ e in
    let (o, _, e2) = >>=-eq-ok (resolve_order f l.orders) _ e1 in
    let (k, moves, result) = >>=-eq-ok (dispatch dec f.octype u f fee now l) _ e2 in
    rw (← ok_injective result) (
      fill_order-IsValid dec f now o k
        (dispatch-IsValid dec f.octype u f fee now l v some_lots moves))
