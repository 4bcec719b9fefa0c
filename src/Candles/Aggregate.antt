-- ===== src/Candles/Aggregate.antt =====
-- Bars of a longer timeframe from the one-minute candles (quanquant/candles/aggregate.py). Prices are
-- whole numbers of ticks, as the source says of them where it makes them floats. The calendar of the
-- trading sessions (`is_trading_session`) is a parameter, and so is the bucket of a time.
pub mod Groups
mod Tests
use quanquant.Base.{
  ℕ, ◌+◌, Bool, true, false, ◌&&◌, not, Option, none, some, List, [], ◌∷◌, ◌++◌, ◌==◌, min, max,
  if◌then◌else◌,
}

pub record Candle : Type 0 where
  pub ts : ℕ
  pub open_price : ℕ
  pub high : ℕ
  pub low : ℕ
  pub close : ℕ
  pub volume : ℕ

-- `Bar`; its time stands in `ts`.
abbrev pub Bar : Type 0
Bar = Candle

abbrev pub to_bars : List Candle → List Bar
to_bars rows = rows

abbrev pub bar_at : ℕ → Candle → Bar
bar_at key r = record r { ts = key }

abbrev pub added_to : Bar → Candle → Bar
added_to cur r = record cur {
  high = max cur.high r.high;
  low = min cur.low r.low;
  close = r.close;
  volume = cur.volume + r.volume;
}

abbrev pub closed_bar : Option Bar → List Bar
closed_bar none = []
closed_bar (some b) = b ∷ []

abbrev pub is_key : ℕ → Option Bar → Bool
is_key key none = false
is_key key (some b) = b.ts == key

-- What a row does to the bar that is being built: the bars that it ends, and the bar after it.
module _ (bucket : ℕ → Option ℕ) (trades : ℕ → Bool) where
  unfoldable pub add_row : Candle → Option Bar → List Bar × Option Bar
  add_row r cur = elim (bucket r.ts) [
    | none ↦ ([], cur)
    | some key ↦ elim cur [
      | none ↦ if trades r.ts then ([], some (bar_at key r)) else ([], none)
      | some b ↦
          if b.ts == key
          then ([], some (added_to b r))
          else if trades r.ts
          then (b ∷ [], some (bar_at key r))
          else ([], some b)
    ]
  ]

  unfoldable pub aggregate_from : List Candle → Option Bar → List Bar
  aggregate_from [] cur = closed_bar cur
  aggregate_from (r ∷ rows) cur =
      let (ended, next) = add_row r cur in ended ++ aggregate_from rows next

  unfoldable pub aggregate_intraday : List Candle → List Bar
  unfolding aggregate_from
  aggregate_intraday rows = aggregate_from rows none
