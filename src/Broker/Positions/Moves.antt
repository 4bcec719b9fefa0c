-- ===== src/Broker/Positions/Moves.antt =====
-- How the steps of `PositionTracker.apply_fill` move a measured quantity.
use quanquant.Base.{
  ℕ, zero, suc, ◌+◌, ◌-◌, ◌<◌, ◌≡◌, refl, sym, ap, ap₂, ◌∙◌, Bool, true, false, Option, none, some,
  [], ◌∷◌, ◌++◌, arith, if◌then◌else◌, Bool-cases, Option-cases, inl, inr, min, leb, lt→ltb,
}
use quanquant.Base.Int.{ℤ, pos, ◌+ℤ◌, ◌*ℕ◌, int_laws, +ℤ_assoc, +ℤ_cancel}
use quanquant.Broker.Types.{Action, OcType, new, cover, auto, Direction}
use quanquant.Broker.Orders.{Order}
use native.Mathlib.Nat.{add-zero}
use quanquant.Broker.Positions.{
  Decimals, Scope, BrokerPosition, Positions, Fill, fill_scope, find_open_position, remaining_qty,
  Ledger, ok, cas_update_broker_position, open_qty, new_position, more_opened, more_closed,
  covers_direction, news_direction, open_in, audit_fill,
}
use quanquant.Broker.Positions.Fills.{
  resolve_fee, resolve_order, round_trip, trade_accepted, finalize, fee_consumed, open_fill,
  reverse_excess, close_position, close_fill, auto_fill, dispatch, apply_fill, write_audit,
  fill_order,
}
use quanquant.Broker.Positions.Rows.{
  total_of, total_of-snoc, ok_injective, >>=-eq-ok, cas_update-total, cas_update-Has, Has,
  found-Has,
}
use quanquant.Broker.Positions.Measures.{IsMeasure, find_open_position-holds}

add_nothing : (a : ℤ) → a ≡ a +ℤ pos 0
add_nothing a = omega int_laws

module _ {dec : Decimals} {m : BrokerPosition → ℤ} {opened closed : Scope → Direction → ℕ → ℤ → ℤ}
    {moved : Scope → Action → ℕ → ℤ → ℤ} (M : IsMeasure dec m opened closed moved) where
  -- A guarded write of a changed object moves the sum by the change.
  cas_update-moves :
      (p changed : BrokerPosition) (delta : ℤ) (now : ℕ) (t : Positions)
      {r : BrokerPosition × Positions}
      → Has p t
      → m changed ≡ m p +ℤ delta
      → cas_update_broker_position p changed now t ≡ ok r
      → total_of m r.1 ≡ total_of m t +ℤ delta
  cas_update-moves p changed delta now t {r} h change e =
      +ℤ_cancel (total_of m r.1) (total_of m t +ℤ delta) (m p) (
        cas_update-total p changed now t m h e
        ∙ rw (M.on_written p changed now, change) (omega int_laws))

  open_qty-moves :
      (s : Scope) (d : Direction) (q : ℕ) (price fee : ℤ) (at now : ℕ) (t : Positions)
      {t' : Positions}
      → open_qty dec s d q price fee at now t ≡ ok t'
      → total_of m t' ≡ total_of m t +ℤ opened s d q price
  unfolding open_qty
  open_qty-moves s d q price fee at now t {t'} e = elim (Option-cases (find_open_position s d t)) [
    | inl free ↦
        let result : t ++ new_position s d q price fee at now t ∷ [] ≡ t' =
          ok_injective (rw (free, open_qty) at e) in
        rw (
          ← result,
          total_of-snoc m t (new_position s d q price fee at now t),
          M.on_new s d q price fee at now t,
        )
    | inr (p, found) ↦
        let (r, wrote, result) =
          >>=-eq-ok (cas_update_broker_position p (more_opened dec q price fee p) now t)
            (λ r. ok r.1) (rw (found, open_qty) at e) in
        let (same_scope, same_direction, _) = find_open_position-holds s d t found in
        rw (← ok_injective result) (
          cas_update-moves p (more_opened dec q price fee p) (opened p.scope p.direction q price)
            now t (found-Has (open_in s d) p t found) (M.on_opened q price fee p) wrote
          ∙ ap₂ (λ x y. total_of m t +ℤ opened x y q price) same_scope same_direction)
  ]

  -- To write the trade of a round trip moves nothing.
  finalize-moves :
      (u : ℕ) (p : BrokerPosition) (ts now : ℕ) (l : Ledger) {l' : Ledger}
      → Has p l.positions
      → finalize dec u p ts now l ≡ ok l'
      → total_of m l'.positions ≡ total_of m l.positions
  unfolding finalize
  finalize-moves u p ts now l {l'} h e =
      elim (Bool-cases (trade_accepted dec (round_trip dec u p ts l))) [
        | inl good ↦
            let (r, wrote, result) =
              >>=-eq-ok
                (cas_update_broker_position p (record p { trade_id = some l.next_trade }) now
                  l.positions)
                _ (rw (good, finalize) at e) in
            ap (λ (k : Ledger). total_of m k.positions) (sym (ok_injective result))
            ∙ cas_update-moves p (record p { trade_id = some l.next_trade }) (pos 0) now l.positions
                h (M.on_trade p (some l.next_trade) ∙ add_nothing (m p)) wrote
            ∙ sym (add_nothing (total_of m l.positions))
        | inr bad ↦ absurd (cc (bad, e))
      ]

  -- To open again what a covering fill exceeds moves the sum as that much of an opening fill.
  reverse_excess-moves :
      (u : ℕ) (f : Fill) (fee : ℤ) (excess now : ℕ) (l : Ledger) {l' : Ledger}
      → 0 < excess
      → reverse_excess dec u f fee excess now l ≡ ok l'
      → total_of m l'.positions
        ≡ total_of m l.positions +ℤ moved (fill_scope u f) f.action excess f.price
  unfolding reverse_excess
  reverse_excess-moves u f fee excess now l {l'} more e =
      let part = dec.quot (fee *ℕ excess) f.qty in
      let (t', opens, result) =
        >>=-eq-ok
          (open_qty dec (fill_scope u f) (news_direction f.action) excess f.price part f.ts now
            l.positions)
          _ (rw (lt→ltb 0 excess more, reverse_excess) at e) in
      ap (λ (k : Ledger). total_of m k.positions) (sym (ok_injective result))
      ∙ open_qty-moves (fill_scope u f) (news_direction f.action) excess f.price part f.ts now
          l.positions opens
      ∙ ap (λ x. total_of m l.positions +ℤ x)
          (M.on_open_fill (fill_scope u f) f.action excess f.price)

  reverse_nothing :
      (u : ℕ) (f : Fill) (fee : ℤ) (now : ℕ) (l : Ledger) {l' : Ledger}
      → reverse_excess dec u f fee 0 now l ≡ ok l'
      → total_of m l'.positions ≡ total_of m l.positions
  unfolding reverse_excess
  reverse_nothing u f fee now l e =
      ap (λ (k : Ledger). total_of m k.positions) (sym (ok_injective e))

  -- The trade of a position that is closed by now is written, or nothing is.
  settle_round_trip :
      (b : Bool) (u : ℕ) (p : BrokerPosition) (ts now : ℕ) (l : Ledger) {l' : Ledger}
      → Has p l.positions
      → (if b then finalize dec u p ts now l else ok l) ≡ ok l'
      → total_of m l'.positions ≡ total_of m l.positions
  settle_round_trip true u p ts now l h e = finalize-moves u p ts now l h e
  settle_round_trip false u p ts now l h e =
      ap (λ (k : Ledger). total_of m k.positions) (sym (ok_injective e))

  -- What the first part of a covering fill does: the lots that it consumes, and the trade.
  consume-moves :
      (u : ℕ) (f : Fill) (p : BrokerPosition) (consumed : ℕ) (fee : ℤ) (now : ℕ) (l : Ledger)
      {r : BrokerPosition × Positions} {l' : Ledger}
      → find_open_position (fill_scope u f) (covers_direction f.action) l.positions ≡ some p
      → cas_update_broker_position p (more_closed dec consumed f.price fee p) now l.positions ≡ ok r
      → (if leb p.total_opened_qty (p.closed_qty + consumed)
          then finalize dec u r.0 f.ts now (record l { positions = r.1 })
          else ok (record l { positions = r.1 }))
        ≡ ok l'
      → total_of m l'.positions
        ≡ total_of m l.positions +ℤ moved (fill_scope u f) f.action consumed f.price
  consume-moves u f p consumed fee now l {r} {l'} found wrote settled =
      let s = fill_scope u f in
      let d = covers_direction f.action in
      let (same_scope, same_direction, _) = find_open_position-holds s d l.positions found in
      settle_round_trip (leb p.total_opened_qty (p.closed_qty + consumed)) u r.0 f.ts now
        (record l { positions = r.1 })
        (cas_update-Has p (more_closed dec consumed f.price fee p) now l.positions wrote).1 settled
      ∙ cas_update-moves p (more_closed dec consumed f.price fee p)
          (closed p.scope p.direction consumed f.price) now l.positions
          (found-Has (open_in s d) p l.positions found) (M.on_closed consumed f.price fee p) wrote
      ∙ ap₂ (λ x y. total_of m l.positions +ℤ closed x y consumed f.price) same_scope same_direction
      ∙ ap (λ x. total_of m l.positions +ℤ x) (M.on_close_fill s f.action consumed f.price)

  -- Both parts together: the consumed lots and the lots that open again.
  join_parts :
      (u : ℕ) (f : Fill) (fee : ℤ) (consumed excess now : ℕ) (l k : Ledger) {l' : Ledger}
      → consumed + excess ≡ f.qty
      → total_of m k.positions
        ≡ total_of m l.positions +ℤ moved (fill_scope u f) f.action consumed f.price
      → reverse_excess dec u f fee excess now k ≡ ok l'
      → total_of m l'.positions
        ≡ total_of m l.positions +ℤ moved (fill_scope u f) f.action f.qty f.price
  join_parts u f fee consumed zero now l k all first e =
      reverse_nothing u f fee now k e
      ∙ first
      ∙ ap (λ n. total_of m l.positions +ℤ moved (fill_scope u f) f.action n f.price)
          (sym (add-zero consumed) ∙ all)
  join_parts u f fee consumed (suc excess) now l k all first e =
      let s = fill_scope u f in
      reverse_excess-moves u f fee (suc excess) now k (omega arith) e
      ∙ ap (λ x. x +ℤ moved s f.action (suc excess) f.price) first
      ∙ +ℤ_assoc (total_of m l.positions) _ _
      ∙ ap (λ x. total_of m l.positions +ℤ x)
          (M.on_split s f.action consumed (suc excess) f.price
            ∙ ap (λ n. moved s f.action n f.price) all)

  close_position-moves :
      (u : ℕ) (f : Fill) (p : BrokerPosition) (fee : ℤ) (now : ℕ) (l : Ledger) {l' : Ledger}
      → find_open_position (fill_scope u f) (covers_direction f.action) l.positions ≡ some p
      → close_position dec u f p fee now l ≡ ok l'
      → total_of m l'.positions
        ≡ total_of m l.positions +ℤ moved (fill_scope u f) f.action f.qty f.price
  unfolding close_position
  close_position-moves u f p fee now l {l'} found e =
      let consumed = min f.qty (remaining_qty p) in
      let excess = f.qty - consumed in
      let feeC = fee_consumed dec f fee excess in
      let (r, wrote, rest) =
        >>=-eq-ok
          (cas_update_broker_position p (more_closed dec consumed f.price feeC p) now l.positions) _
          e in
      let (l2, settled, reversed) =
        >>=-eq-ok
          (if leb p.total_opened_qty (p.closed_qty + consumed)
            then finalize dec u r.0 f.ts now (record l { positions = r.1 })
            else ok (record l { positions = r.1 }))
          _ rest in
      join_parts u f fee consumed excess now l (write_audit (audit_fill u f.mode "close") l2)
        (omega arith) (consume-moves u f p consumed feeC now l found wrote settled) reversed

  close_fill-moves :
      (u : ℕ) (f : Fill) (fee : ℤ) (now : ℕ) (l : Ledger) {l' : Ledger}
      → close_fill dec u f (covers_direction f.action) fee now l ≡ ok l'
      → total_of m l'.positions
        ≡ total_of m l.positions +ℤ moved (fill_scope u f) f.action f.qty f.price
  unfolding close_fill
  close_fill-moves u f fee now l {l'} e =
      elim (Option-cases
        (find_open_position (fill_scope u f) (covers_direction f.action) l.positions)) [
          | inl missing ↦ absurd (cc (rw (missing, close_fill) at e))
          | inr (p, found) ↦
              close_position-moves u f p fee now l found (rw (found, close_fill) at e)
        ]

  open_fill-moves :
      (u : ℕ) (f : Fill) (fee : ℤ) (now : ℕ) (l : Ledger) {l' : Ledger}
      → open_fill dec u f (news_direction f.action) fee now l ≡ ok l'
      → total_of m l'.positions
        ≡ total_of m l.positions +ℤ moved (fill_scope u f) f.action f.qty f.price
  unfolding open_fill
  open_fill-moves u f fee now l {l'} e =
      let (t', opens, result) =
        >>=-eq-ok
          (open_qty dec (fill_scope u f) (news_direction f.action) f.qty f.price fee f.ts now
            l.positions)
          _ e in
      ap (λ (k : Ledger). total_of m k.positions) (sym (ok_injective result))
      ∙ open_qty-moves (fill_scope u f) (news_direction f.action) f.qty f.price fee f.ts now
          l.positions opens
      ∙ ap (λ x. total_of m l.positions +ℤ x)
          (M.on_open_fill (fill_scope u f) f.action f.qty f.price)

  auto_fill-moves :
      (u : ℕ) (f : Fill) (fee : ℤ) (now : ℕ) (l : Ledger) {l' : Ledger}
      → auto_fill dec u f fee now l ≡ ok l'
      → total_of m l'.positions
        ≡ total_of m l.positions +ℤ moved (fill_scope u f) f.action f.qty f.price
  unfolding auto_fill
  auto_fill-moves u f fee now l {l'} e =
      elim (Option-cases
        (find_open_position (fill_scope u f) (covers_direction f.action) l.positions)) [
          | inl none_to_cover ↦ open_fill-moves u f fee now l (rw (none_to_cover, auto_fill) at e)
          | inr (p, found) ↦
              elim (Option-cases
                (find_open_position (fill_scope u f) (news_direction f.action) l.positions)) [
                  | inl one_side ↦
                      close_fill-moves u f fee now l (rw (found, one_side, auto_fill) at e)
                  | inr (q, both) ↦ absurd (cc (rw (found, both, auto_fill) at e))
                ]
        ]

  dispatch-moves :
      (c : OcType) (u : ℕ) (f : Fill) (fee : ℤ) (now : ℕ) (l : Ledger) {l' : Ledger}
      → dispatch dec c u f fee now l ≡ ok l'
      → total_of m l'.positions
        ≡ total_of m l.positions +ℤ moved (fill_scope u f) f.action f.qty f.price
  unfolding dispatch
  dispatch-moves new u f fee now l e = open_fill-moves u f fee now l e
  dispatch-moves cover u f fee now l e = close_fill-moves u f fee now l e
  dispatch-moves auto u f fee now l e = auto_fill-moves u f fee now l e

  fill_order-positions :
      (f : Fill) (now : ℕ) (o : Option Order) (l : Ledger)
      → (fill_order dec f now o l).positions ≡ l.positions
  fill_order-positions f now none l = refl
  fill_order-positions f now (some o) l = refl

  -- An accepted fill moves the sum by what the fill says.
  pub apply_fill-moves :
      (u : ℕ) (f : Fill) (now : ℕ) (l : Ledger) {l' : Ledger}
      → apply_fill dec u f now l ≡ ok l'
      → total_of m l'.positions
        ≡ total_of m l.positions +ℤ moved (fill_scope u f) f.action f.qty f.price
  unfolding apply_fill
  apply_fill-moves u f now l {l'} e =
      let (fee, _, e1) = >>=-eq-ok (resolve_fee dec f) _ e in
      let (o, _, e2) = >>=-eq-ok (resolve_order f l.orders) _ e1 in
      let (k, moves, result) = >>=-eq-ok (dispatch dec f.octype u f fee now l) _ e2 in
      ap (λ (k : Ledger). total_of m k.positions) (sym (ok_injective result))
      ∙ ap (total_of m) (fill_order-positions f now o k)
      ∙ dispatch-moves f.octype u f fee now l moves
