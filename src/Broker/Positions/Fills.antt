-- ===== src/Broker/Positions/Fills.antt =====
-- `PositionTracker.apply_fill` and the steps below it (quanquant/broker/position_tracker.py).
use quanquant.Base.{
  ℕ, ◌+◌, ◌-◌, ◌*◌, String, Bool, ◌&&◌, not, Option, none, some, [], ◌∷◌, ◌++◌, leb, ltb, ◌==◌, min,
  str_eq, if◌then◌else◌,
}
use quanquant.Base.Int.{ℤ, pos, ◌*ℕ◌, ltb_ℤ, leb_ℤ}
use quanquant.Broker.Types.{sim, real, OcType, new, cover, auto, Direction}
use quanquant.Broker.Orders.{
  Order, Orders, find_order_by_ordno, find_order_by_broker_id, apply_order_fill, save,
}
use quanquant.Journal.Pnl.{compute_pnl}
use quanquant.Broker.Positions.{
  Decimals, BrokerPosition, Fill, fill_scope, find_open_position, remaining_qty, OrderAudit, Trade,
  Ledger, Outcome, ok, mismatch, invalid_trade, ◌>>=◌, cas_update_broker_position, open_qty,
  audit_fill, utc_to_cst, point_value, covers_direction, news_direction, more_closed,
}

-- A column that the program reads with `if value`: NULL and the empty text count as missing.
abbrev given : Option String → Option String
given none = none
given (some s) = if str_eq s "" then none else some s

abbrev find_given : (String → Option Order) → Option String → Option Order
find_given find none = none
find_given find (some s) = find s

abbrev agree : Option Order → Option Order → Outcome (Option Order)
agree none b = ok b
agree (some a) none = ok (some a)
agree (some a) (some b) = if not (a.id == b.id) then mismatch else ok (some a)

-- `_resolve_order`: both keys, where they are given, must name one order.
unfoldable pub resolve_order : Fill → Orders → Outcome (Option Order)
resolve_order f orders =
    agree (find_given (λ s. find_order_by_ordno f.broker f.account f.mode s orders) (given f.ordno))
      (find_given (λ s. find_order_by_broker_id f.broker f.account f.mode s orders)
        (given f.broker_order_id))

abbrev pub write_audit : OrderAudit → Ledger → Ledger
write_audit a l = record l { audits = l.audits ++ a ∷ [] }

module _ (dec : Decimals) where
  -- `_SIM_FEE_PER_LOT`
  abbrev pub sim_fee_per_lot : ℤ
  sim_fee_per_lot = pos (20 * dec.scale)

  -- `_resolve_fee`: a real fill without a fee is refused, a simulated one is estimated.
  unfoldable pub resolve_fee : Fill → Outcome ℤ
  resolve_fee f = elim f.fee [
    | some fee ↦ ok fee
    | none ↦ elim f.mode [ real ↦ mismatch | sim ↦ ok (sim_fee_per_lot *ℕ f.qty) ]
  ]

  -- The trade of a round trip, priced by the averages of both sides.
  abbrev pub round_trip : ℕ → BrokerPosition → ℕ → Ledger → Trade
  round_trip user_id p ts l =
      let entry = dec.quot p.entry_notional p.total_opened_qty in
      let exit = dec.quot p.exit_notional p.closed_qty in
      let fee = dec.plus p.open_fee_total p.close_fee_total in
      record {
        id = l.next_trade;
        user_id = user_id;
        symbol = p.scope.symbol;
        direction = p.direction;
        entry_time = utc_to_cst p.opened_at;
        entry_price = entry;
        exit_time = utc_to_cst ts;
        exit_price = exit;
        size = p.total_opened_qty;
        point_value = point_value p.scope.symbol;
        fee = fee;
        mode = p.scope.mode;
        source = "shioaji";
        pnl =
            compute_pnl p.direction entry (some exit) p.total_opened_qty
              (point_value p.scope.symbol) (some fee);
      }

  -- The field constraints of `TradeCreate`.
  abbrev pub trade_accepted : Trade → Bool
  trade_accepted t =
      (ltb_ℤ (pos 0) t.entry_price && ltb_ℤ (pos 0) t.exit_price)
      && (ltb 0 t.size && (ltb 0 t.point_value && leb_ℤ (pos 0) t.fee))

  -- `_finalize`: the trade is written, and the position remembers it.
  unfoldable pub finalize : ℕ → BrokerPosition → ℕ → ℕ → Ledger → Outcome Ledger
  finalize user_id p ts now l =
      let trade = round_trip user_id p ts l in
      if trade_accepted trade
      then (do
        (p', positions') ←
            cas_update_broker_position p (record p { trade_id = some l.next_trade }) now l.positions
        ok (record l {
          positions = positions';
          trades = l.trades ++ trade ∷ [];
          next_trade = l.next_trade + 1;
        }))
      else invalid_trade

  -- The fee of a covering fill, split into the part consumed and the part that opens again.
  abbrev pub fee_excess : Fill → ℤ → ℕ → ℤ
  fee_excess f fee excess = if ltb 0 excess then dec.quot (fee *ℕ excess) f.qty else pos 0

  abbrev pub fee_consumed : Fill → ℤ → ℕ → ℤ
  fee_consumed f fee excess = if ltb 0 excess then dec.minus fee (fee_excess f fee excess) else fee

  -- `_open`
  unfoldable pub open_fill : ℕ → Fill → Direction → ℤ → ℕ → Ledger → Outcome Ledger
  open_fill user_id f direction fee now l = do
    positions' ←
        open_qty dec (fill_scope user_id f) direction f.qty f.price fee f.ts now l.positions
    ok (write_audit (audit_fill user_id f.mode "open") (record l { positions = positions' }))

  -- The reversal at the end of `_close`.
  unfoldable pub reverse_excess : ℕ → Fill → ℤ → ℕ → ℕ → Ledger → Outcome Ledger
  reverse_excess user_id f fee excess now l =
      if ltb 0 excess
      then (do
        positions' ←
            open_qty dec (fill_scope user_id f) (news_direction f.action) excess f.price
              (fee_excess f fee excess) f.ts now l.positions
        ok (
            write_audit (audit_fill user_id f.mode "cover_excess_reversal")
              (record l { positions = positions' })))
      else ok l

  -- `_close` on the position that it found
  unfoldable pub close_position : ℕ → Fill → BrokerPosition → ℤ → ℕ → Ledger → Outcome Ledger
  close_position user_id f p fee now l =
      let consumed = min f.qty (remaining_qty p) in
      let excess = f.qty - consumed in
      do
        (p', positions') ←
            cas_update_broker_position p
              (more_closed dec consumed f.price (fee_consumed f fee excess) p) now l.positions
        l' ←
            (if leb p.total_opened_qty (p.closed_qty + consumed)
              then finalize user_id p' f.ts now (record l { positions = positions' })
              else ok (record l { positions = positions' }))
        reverse_excess user_id f fee excess now (write_audit (audit_fill user_id f.mode "close") l')

  unfoldable pub close_fill : ℕ → Fill → Direction → ℤ → ℕ → Ledger → Outcome Ledger
  close_fill user_id f target_direction fee now l =
      elim (find_open_position (fill_scope user_id f) target_direction l.positions) [
        | none ↦ mismatch
        | some p ↦ close_position user_id f p fee now l
      ]

  -- `_auto`: close what the fill can close, or open; both directions open is ambiguous.
  unfoldable pub auto_fill : ℕ → Fill → ℤ → ℕ → Ledger → Outcome Ledger
  auto_fill user_id f fee now l =
      elim (find_open_position (fill_scope user_id f) (covers_direction f.action) l.positions) [
        | some p ↦
            elim (find_open_position (fill_scope user_id f) (news_direction f.action) l.positions) [
              | some _ ↦ mismatch
              | none ↦ close_fill user_id f (covers_direction f.action) fee now l
            ]
        | none ↦ open_fill user_id f (news_direction f.action) fee now l
      ]

  unfoldable pub dispatch : OcType → ℕ → Fill → ℤ → ℕ → Ledger → Outcome Ledger
  dispatch new user_id f fee now l = open_fill user_id f (news_direction f.action) fee now l
  dispatch cover user_id f fee now l = close_fill user_id f (covers_direction f.action) fee now l
  dispatch auto user_id f fee now l = auto_fill user_id f fee now l

  abbrev pub fill_order : Fill → ℕ → Option Order → Ledger → Ledger
  fill_order f now none l = l
  fill_order f now (some o) l = record l {
    orders = save (apply_order_fill dec.quot f.qty f.price none now o) l.orders;
  }

  unfoldable pub apply_fill : ℕ → Fill → ℕ → Ledger → Outcome Ledger
  apply_fill user_id f now l = do
    fee ← resolve_fee f
    order ← resolve_order f l.orders
    l' ← dispatch f.octype user_id f fee now l
    ok (fill_order f now order l')
