-- ===== src/Candles/Builder/Tests.antt =====
-- Runs and witnesses of the builder.
use quanquant.Base.{ℕ, ◌+◌, ◌≡◌, refl, arith, true, Option, none, some, List, [], ◌∷◌, All}
use quanquant.Candles.Bucketing.{SessionKind, day_session, bucket_start_ms, session_bounds_cst}
use quanquant.Candles.Builder.{
  Snapshot, Builder, fresh_builder, volume_delta, next_bar, on_snapshot, on_snapshots,
}
use quanquant.Candles.Builder.Volume.{ended_volume, volume_of, ended_volume-on_snapshots}
use quanquant.Candles.Builder.Shapes.{IsBar, emitted, emitted-IsBar}

abbrev always_day : ℕ → Option SessionKind
always_day ts = some day_session

abbrev no_date : ℕ → ℕ
no_date day = 0

-- At nine in the morning of the exchange, and later.
abbrev snapshot : ℕ → ℕ → ℕ → Snapshot
snapshot later price volume = record {
  fetched_ms = 3600000 + later;
  price = price;
  volume = volume;
  contract_month = "TXFG6";
  data_date = none;
  is_fresh = true;
}

abbrev morning : List Snapshot
morning = snapshot 1000 103 12 ∷ snapshot 6000 99 15 ∷ snapshot 61000 101 20 ∷ []

abbrev started : Builder
started = (on_snapshot always_day no_date (snapshot 0 100 10) fresh_builder).1

ended-morning : ended_volume always_day no_date morning started ≡ 5
unfolding on_snapshot volume_delta next_bar bucket_start_ms session_bounds_cst
ended-morning = refl

ended_volume-on_snapshots_example :
    ended_volume always_day no_date morning started
      + volume_of (on_snapshots always_day no_date morning started).cur
      + 10
    ≡ 20 + 0
unfolding on_snapshot volume_delta next_bar bucket_start_ms session_bounds_cst
ended_volume-on_snapshots_example =
    ended_volume-on_snapshots always_day no_date morning started "TXFG6" 10 refl refl (
      refl,
      refl,
      refl,
      refl,
      omega arith,
      (refl, refl, refl, refl, omega arith, (refl, refl, refl, refl, omega arith, tt)),
    )

emitted-IsBar_example : All IsBar (emitted always_day no_date morning fresh_builder)
emitted-IsBar_example = emitted-IsBar always_day no_date morning fresh_builder tt
