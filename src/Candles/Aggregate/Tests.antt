-- ===== src/Candles/Aggregate/Tests.antt =====
-- Bars of concrete candles, and the theorem at them.
use quanquant.Base.{ℕ, ◌+◌, ◌≡◌, refl, arith, Bool, Option, List, [], ◌∷◌, leb, not}
use quanquant.Candles.Bucketing.{session_bounds_cst, bucket_start_ms}
use quanquant.Candles.Aggregate.{Candle, aggregate_intraday, aggregate_from, add_row}
use quanquant.Candles.Aggregate.Groups.{Ascending, find_bar, bar_of, find_bar-aggregate_intraday}

abbrev bucket_5m : ℕ → Option ℕ
bucket_5m ts = bucket_start_ms ts 5

-- A calendar that closes after 09:06 of 2024-01-02.
abbrev calendar : ℕ → Bool
calendar ts = not (leb 1704157620000 ts)

abbrev candle : ℕ → ℕ → Candle
candle ts price = record {
  ts = ts;
  open_price = price;
  high = price + 2;
  low = price;
  close = price + 1;
  volume = 3;
}

-- 09:03, 09:04, 09:05, 09:07 and 09:10.
abbrev candles : List Candle
candles =
    candle 1704157380000 100
    ∷ candle 1704157440000 90
    ∷ candle 1704157500000 110
    ∷ candle 1704157620000 120
    ∷ candle 1704157800000 130
    ∷ []

two_bars :
    aggregate_intraday bucket_5m calendar candles
    ≡ (record {
      ts = 1704157200000;
      open_price = 100;
      high = 102;
      low = 90;
      close = 91;
      volume = 6;
    })
      ∷ (record {
        ts = 1704157500000;
        open_price = 110;
        high = 122;
        low = 110;
        close = 121;
        volume = 6;
      })
      ∷ []
unfolding aggregate_intraday aggregate_from add_row bucket_start_ms session_bounds_cst
two_bars = refl

candles-ascend : Ascending bucket_5m calendar 0 candles
unfolding bucket_start_ms session_bounds_cst
candles-ascend = omega arith

find_bar-aggregate_intraday_example :
    find_bar bucket_5m calendar 1704157500000 (aggregate_intraday bucket_5m calendar candles)
    ≡ bar_of bucket_5m calendar 1704157500000 candles
find_bar-aggregate_intraday_example =
    find_bar-aggregate_intraday bucket_5m calendar candles 1704157500000 candles-ascend
