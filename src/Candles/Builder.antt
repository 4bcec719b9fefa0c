-- ===== src/Candles/Builder.antt =====
-- Candles of a minute from the stream of snapshots (quanquant/candles/builder.py, `CandleBuilder`).
-- Prices are whole numbers of ticks. Of a row the columns that stay the same for the builder, and the
-- session and the date that follow from its time, are left out. The calendar (`is_trading_session`) is
-- a parameter, and so is the number of a day, year, month and date in eight digits.
pub mod Volume
pub mod Shapes
mod Tests
use quanquant.Base.{
  ℕ, ◌+◌, ◌-◌, String, Bool, true, false, ◌&&◌, ◌||◌, not, Option, none, some, List, [], ◌∷◌, leb,
  ltb, ◌==◌, str_eq, min, max, if◌then◌else◌,
}
use quanquant.Candles.Bucketing.{
  SessionKind, day_session, night_session, cst, date_of, bucket_start_ms,
}
use quanquant.Candles.Aggregate.{Candle}

-- What is read of a snapshot; `data_date` is the number of its first eight digits, if it has as many.
pub record Snapshot : Type 0 where
  pub fetched_ms : ℕ
  pub price : ℕ
  pub volume : ℕ
  pub contract_month : String
  pub data_date : Option ℕ
  pub is_fresh : Bool

pub record Builder : Type 0 where
  pub prev_cum_vol : Option ℕ
  pub prev_vol_contract : Option String
  pub cur : Option Candle

abbrev pub fresh_builder : Builder
fresh_builder = record { prev_cum_vol = none; prev_vol_contract = none; cur = none }

abbrev pub is_same_contract : Option String → String → Bool
is_same_contract none contract = false
is_same_contract (some c) contract = str_eq c contract

-- `_volume_delta`, the number of it
unfoldable pub volume_delta : ℕ → String → Builder → ℕ
volume_delta cum contract s = elim s.prev_cum_vol [
  | none ↦ 0
  | some prev ↦
      if not (is_same_contract s.prev_vol_contract contract)
      then 0
      else if leb prev cum
      then cum - prev
      else cum
]

-- The reset of a closed market, which keeps the contract of the last counter.
abbrev pub reset : Builder → Builder
reset s = record s { prev_cum_vol = none; cur = none }

abbrev pub extended_bar : Candle → ℕ → ℕ → Candle
extended_bar b price dv = record b {
  high = max b.high price;
  low = min b.low price;
  close = price;
  volume = b.volume + dv;
}

abbrev pub opening_bar : ℕ → ℕ → ℕ → Candle
opening_bar bucket price dv = record {
  ts = bucket;
  open_price = price;
  high = price;
  low = price;
  close = price;
  volume = dv;
}

-- The rows to upsert and the bar that is being built, from the bar before.
unfoldable pub next_bar : ℕ → ℕ → ℕ → Option Candle → List Candle × Candle
next_bar bucket price dv none = (opening_bar bucket price dv ∷ [], opening_bar bucket price dv)
next_bar bucket price dv (some b) =
    if b.ts == bucket
    then (extended_bar b price dv ∷ [], extended_bar b price dv)
    else (b ∷ opening_bar bucket price dv ∷ [], opening_bar bucket price dv)

module _ (is_trading_session : ℕ → Option SessionKind) (date_number : ℕ → ℕ) where
  abbrev pub is_stale_day_quote : Option ℕ → ℕ → Bool
  is_stale_day_quote none ts = false
  is_stale_day_quote (some day) ts = ltb day (date_number (date_of (cst ts)))

  -- The market is closed, or a day session replays an old one.
  abbrev pub is_closed : Option SessionKind → Snapshot → Bool
  is_closed none snap = true
  is_closed (some day_session) snap = is_stale_day_quote snap.data_date snap.fetched_ms
  is_closed (some night_session) snap = false

  -- A bucket that is missing while the session is open is the failed assertion: nothing is emitted.
  unfoldable pub on_snapshot : Snapshot → Builder → List Candle × Builder
  unfolding volume_delta next_bar
  on_snapshot snap s =
      if is_closed (is_trading_session snap.fetched_ms) snap
      then ([], reset s)
      else if not snap.is_fresh
      then ([], s)
      else elim (bucket_start_ms snap.fetched_ms 1) [
        | none ↦ ([], s)
        | some bucket ↦
            let dv = volume_delta snap.volume snap.contract_month s in
            let (rows, b) = next_bar bucket snap.price dv s.cur in
            (
              rows,
              record {
                prev_cum_vol = some snap.volume;
                prev_vol_contract = some snap.contract_month;
                cur = some b;
              },
            )
      ]

  unfoldable pub on_snapshots : List Snapshot → Builder → Builder
  unfolding on_snapshot
  on_snapshots [] s = s
  on_snapshots (snap ∷ snaps) s = on_snapshots snaps (on_snapshot snap s).1
