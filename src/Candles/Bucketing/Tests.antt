-- ===== src/Candles/Bucketing/Tests.antt =====
-- Buckets of concrete times, and the theorems at them.
use quanquant.Base.{ℕ, ◌≡◌, refl, arith, some}
use quanquant.Candles.Bucketing.{
  session_bounds_cst, session_of_ms, night_session, bucket_start_ms, bucket_close_ms,
}
use quanquant.Candles.Bucketing.Bounds.{IsBucket, bucket_start_ms-IsBucket, bucket_start_ms-minute}

-- 2024-01-02 at 09:03:20 and at 13:45:10 in Taipei.
abbrev morning : ℕ
morning = 1704157400000

abbrev close_tick : ℕ
close_tick = 1704174310000

abbrev at_night : ℕ
at_night = 1704132000000

at_nine : bucket_start_ms morning 10 ≡ some 1704156900000
unfolding bucket_start_ms session_bounds_cst
at_nine = refl

-- The closing minute falls into the bucket from 12:45.
at_close : bucket_start_ms close_tick 60 ≡ some 1704170700000
unfolding bucket_start_ms session_bounds_cst
at_close = refl

close_of_close : bucket_close_ms 1704170700000 60 ≡ 1704174300000
unfolding bucket_close_ms session_bounds_cst
close_of_close = refl

night_of : session_of_ms at_night ≡ some night_session
unfolding session_of_ms session_bounds_cst
night_of = refl

bucket_start_ms-IsBucket_example : IsBucket close_tick 60 1704170700000
bucket_start_ms-IsBucket_example =
    bucket_start_ms-IsBucket close_tick 60 1704170700000 (omega arith) at_close

first_minute : bucket_start_ms morning 1 ≡ some 1704157380000
unfolding bucket_start_ms session_bounds_cst
first_minute = refl

bucket_start_ms-minute_example : bucket_start_ms 1704157380000 240 ≡ bucket_start_ms morning 240
bucket_start_ms-minute_example = bucket_start_ms-minute morning 240 1704157380000 first_minute
