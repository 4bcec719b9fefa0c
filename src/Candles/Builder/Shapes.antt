-- ===== src/Candles/Builder/Shapes.antt =====
-- The shape of the bars that a stream of snapshots builds.
use quanquant.Base.{
  ℕ, ◌≤◌, Option, none, some, List, [], ◌∷◌, ◌++◌, ◌==◌, arith, inl, inr, All, Bool-cases,
  Option-cases,
}
use quanquant.Candles.Bucketing.{SessionKind, bucket_start_ms}
use quanquant.Candles.Aggregate.{Candle}
use quanquant.Candles.Builder.{
  Snapshot, Builder, opening_bar, extended_bar, next_bar, volume_delta, is_closed, on_snapshot,
}

-- The opening and the closing price lie between the low and the high.
pub record IsBar (b : Candle) : Type 0 where
  pub open_above : b.low ≤ b.open_price
  pub open_below : b.open_price ≤ b.high
  pub close_above : b.low ≤ b.close
  pub close_below : b.close ≤ b.high

abbrev pub IsBuilding : Option Candle → Type 0
IsBuilding none = Unit {0}
IsBuilding (some b) = IsBar b

opening_bar-IsBar : (bucket price dv : ℕ) → IsBar (opening_bar bucket price dv)
opening_bar-IsBar bucket price dv = record {
  open_above = omega arith;
  open_below = omega arith;
  close_above = omega arith;
  close_below = omega arith;
}

extended_bar-IsBar : (b : Candle) (price dv : ℕ) → IsBar b → IsBar (extended_bar b price dv)
extended_bar-IsBar b price dv h = record {
  open_above = omega (arith, h.open_above);
  open_below = omega (arith, h.open_below);
  close_above = omega arith;
  close_below = omega arith;
}

next_bar-IsBar :
    (bucket price dv : ℕ) (cur : Option Candle)
    → IsBuilding cur
    → All IsBar (next_bar bucket price dv cur).0 × IsBar (next_bar bucket price dv cur).1
unfolding next_bar
next_bar-IsBar bucket price dv none h =
    ((opening_bar-IsBar bucket price dv, tt), opening_bar-IsBar bucket price dv)
next_bar-IsBar bucket price dv (some b) h = elim (Bool-cases (b.ts == bucket)) [
  | inl same ↦ rw same ((extended_bar-IsBar b price dv h, tt), extended_bar-IsBar b price dv h)
  | inr other ↦
      rw other ((h, (opening_bar-IsBar bucket price dv, tt)), opening_bar-IsBar bucket price dv)
]

All-append : (xs ys : List Candle) → All IsBar xs → All IsBar ys → All IsBar (xs ++ ys)
All-append [] ys ps qs = qs
All-append (x ∷ xs) ys (p, ps) qs = (p, All-append xs ys ps qs)

module _ (is_trading_session : ℕ → Option SessionKind) (date_number : ℕ → ℕ) where
  on_snapshot-IsBar :
      (snap : Snapshot) (s : Builder)
      → IsBuilding s.cur
      → All IsBar (on_snapshot is_trading_session date_number snap s).0
        × IsBuilding (on_snapshot is_trading_session date_number snap s).1.cur
  unfolding on_snapshot
  on_snapshot-IsBar snap s h =
      elim (Bool-cases
        (is_closed is_trading_session date_number (is_trading_session snap.fetched_ms) snap)) [
          | inl closed ↦ rw closed (tt, tt)
          | inr runs ↦ elim (Bool-cases snap.is_fresh) [
            | inr old ↦ rw (runs, old) (tt, h)
            | inl fresh ↦ elim (Option-cases (bucket_start_ms snap.fetched_ms 1)) [
              | inl outside ↦ rw (runs, fresh, outside) (tt, h)
              | inr (bucket, there) ↦
                  rw (runs, fresh, there)
                    (next_bar-IsBar bucket snap.price
                      (volume_delta snap.volume snap.contract_month s) s.cur h)
            ]
          ]
        ]

  -- The rows that a run emits, one after the other.
  abbrev pub emitted : List Snapshot → Builder → List Candle
  emitted [] s = []
  emitted (snap ∷ snaps) s =
      (on_snapshot is_trading_session date_number snap s).0
      ++ emitted snaps (on_snapshot is_trading_session date_number snap s).1

  -- Every row that any stream of snapshots makes the builder emit has its opening and its closing price
  -- between its low and its high, if that holds of the bar that is being built at the start.
  pub emitted-IsBar :
      (snaps : List Snapshot) (s : Builder) → IsBuilding s.cur → All IsBar (emitted snaps s)
  emitted-IsBar [] s h = tt
  emitted-IsBar (snap ∷ snaps) s h =
      let (rows, building) = on_snapshot-IsBar snap s h in
      let s' = (on_snapshot is_trading_session date_number snap s).1 in
      All-append (on_snapshot is_trading_session date_number snap s).0 (emitted snaps s') rows
        (emitted-IsBar snaps s' building)
