-- ===== src/Candles/Builder/Volume.antt =====
-- The volume of the bars that a stream of snapshots builds.
use quanquant.Base.{
  ℕ, ◌+◌, ◌-◌, ◌≤◌, String, ◌≡◌, refl, sym, ap, ◌∙◌, Bool, true, false, Option, none, some, List,
  [], ◌∷◌, le→leb, ◌==◌, arith, inl, inr, Bool-cases, Option-cases, str_eq_refl,
}
use quanquant.Candles.Bucketing.{SessionKind, bucket_start_ms}
use quanquant.Candles.Aggregate.{Candle}
use quanquant.Candles.Builder.{
  Snapshot, Builder, next_bar, volume_delta, is_closed, on_snapshot, on_snapshots,
}

abbrev pub volume_of : Option Candle → ℕ
volume_of none = 0
volume_of (some b) = b.volume

-- The volume of the bar that a step puts away: the first of two rows.
abbrev pub put_away : List Candle → ℕ
put_away [] = 0
put_away (b ∷ []) = 0
put_away (b ∷ c ∷ rows) = b.volume

abbrev pub is_outside : Option ℕ → Bool
is_outside none = true
is_outside (some bucket) = false

next_bar_volume :
    (bucket price dv : ℕ) (cur : Option Candle)
    → put_away (next_bar bucket price dv cur).0 + (next_bar bucket price dv cur).1.volume
      ≡ dv + volume_of cur
unfolding next_bar
next_bar_volume bucket price dv none = omega arith
next_bar_volume bucket price dv (some b) = elim (Bool-cases (b.ts == bucket)) [
  | inl same ↦ rw same (omega arith)
  | inr other ↦ rw other (omega arith)
]

volume_delta_same :
    (cum last : ℕ) (contract : String) (s : Builder)
    → s.prev_cum_vol ≡ some last
    → s.prev_vol_contract ≡ some contract
    → last ≤ cum
    → volume_delta cum contract s ≡ cum - last
unfolding volume_delta
volume_delta_same cum last contract s counter of_contract grows =
    rw (counter, of_contract, str_eq_refl contract, le→leb last cum grows) refl

-- The counter of the exchange after the snapshots.
abbrev pub last_volume : ℕ → List Snapshot → ℕ
last_volume last [] = last
last_volume last (snap ∷ snaps) = last_volume snap.volume snaps

module _ (is_trading_session : ℕ → Option SessionKind) (date_number : ℕ → ℕ) where
  -- Fresh snapshots of one contract in an open market, whose counter does not fall.
  abbrev pub Counts : String → ℕ → List Snapshot → Type 0
  Counts contract last [] = Unit {0}
  Counts contract last (snap ∷ snaps) =
      (is_closed is_trading_session date_number (is_trading_session snap.fetched_ms) snap ≡ false)
      × (snap.is_fresh ≡ true)
      × (is_outside (bucket_start_ms snap.fetched_ms 1) ≡ false)
      × (snap.contract_month ≡ contract)
      × (last ≤ snap.volume)
      × Counts contract snap.volume snaps

  abbrev pub ended_volume : List Snapshot → Builder → ℕ
  ended_volume [] s = 0
  ended_volume (snap ∷ snaps) s =
      put_away (on_snapshot is_trading_session date_number snap s).0
      + ended_volume snaps (on_snapshot is_trading_session date_number snap s).1

  step_volume :
      (snap : Snapshot) (snaps : List Snapshot) (s : Builder) (contract : String) (last : ℕ)
      → s.prev_cum_vol ≡ some last
      → s.prev_vol_contract ≡ some contract
      → Counts contract last (snap ∷ snaps)
      → let (rows, s') = on_snapshot is_trading_session date_number snap s in
        (put_away rows + volume_of s'.cur + last ≡ snap.volume + volume_of s.cur)
        × (s'.prev_cum_vol ≡ some snap.volume)
        × (s'.prev_vol_contract ≡ some contract)
  unfolding on_snapshot
  step_volume snap snaps s contract last counter of_contract
        (runs, fresh, inside, same, grows, rest) =
      elim (Option-cases (bucket_start_ms snap.fetched_ms 1)) [
        | inl nowhere ↦ absurd (cc (rw nowhere at inside))
        | inr (bucket, there) ↦
            let dv = volume_delta snap.volume snap.contract_month s in
            let grown : dv ≡ snap.volume - last =
              volume_delta_same snap.volume last snap.contract_month s counter
                (of_contract ∙ ap some (sym same)) grows in
            let sum = next_bar_volume bucket snap.price dv s.cur in
            rw (runs, fresh, there) (omega (arith, sum, grown, grows), refl, ap some same)
      ]

  -- While the market is open and fresh snapshots of the contract of the last counter come whose counter
  -- does not fall, the bars that are put away and the one that is being built gain together exactly what
  -- the counter of the exchange grows by.
  pub ended_volume-on_snapshots :
      (snaps : List Snapshot) (s : Builder) (contract : String) (last : ℕ)
      → s.prev_cum_vol ≡ some last
      → s.prev_vol_contract ≡ some contract
      → Counts contract last snaps
      → ended_volume snaps s
          + volume_of (on_snapshots is_trading_session date_number snaps s).cur
          + last
        ≡ last_volume last snaps + volume_of s.cur
  unfolding on_snapshots
  ended_volume-on_snapshots [] s contract last counter of_contract c = omega arith
  ended_volume-on_snapshots (snap ∷ snaps) s contract last counter of_contract
        (runs, fresh, inside, same, grows, rest) =
      let (here, counter', of_contract') =
        step_volume snap snaps s contract last counter of_contract
          (runs, fresh, inside, same, grows, rest) in
      let s' = (on_snapshot is_trading_session date_number snap s).1 in
      omega (
        arith,
        here,
        ended_volume-on_snapshots snaps s' contract snap.volume counter' of_contract' rest,
      )
