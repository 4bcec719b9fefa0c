-- ===== src/Candles/Aggregate/Groups.antt =====
-- The bars against the groups of rows that they stand for.
use quanquant.Base.{
  ℕ, ◌≤◌, ◌<◌, ◌≡◌, refl, ap, ◌∙◌, Bool, true, false, ◌&&◌, Option, none, some, List, [], ◌∷◌, ◌==◌,
  ==_iff, if◌then◌else◌, arith, Option-cases, Bool-cases, inl, inr,
}
use quanquant.Candles.Aggregate.{
  Candle, Bar, bar_at, added_to, add_row, aggregate_from, aggregate_intraday,
}

abbrev pub grown : Bar → List Candle → Bar
grown b [] = b
grown b (r ∷ rows) = grown (added_to b r) rows

abbrev pub key_is : Option ℕ → ℕ → Bool
key_is none k = false
key_is (some key) k = key == k

abbrev pub AtLeast : ℕ → Option ℕ → Type 0
AtLeast c none = Unit {0}
AtLeast c (some key) = c ≤ key

abbrev pub raised_to : ℕ → Option ℕ → ℕ
raised_to c none = c
raised_to c (some key) = key

module _ (bucket : ℕ → Option ℕ) (trades : ℕ → Bool) where
  abbrev pub in_bucket : ℕ → Candle → Bool
  in_bucket k r = key_is (bucket r.ts) k

  abbrev pub rows_in : ℕ → List Candle → List Candle
  rows_in k [] = []
  rows_in k (r ∷ rows) = if in_bucket k r then r ∷ rows_in k rows else rows_in k rows

  -- The bar of a bucket, by its rows: the first that trades opens it, and all after that one count.
  abbrev pub bar_of : ℕ → List Candle → Option Bar
  bar_of k [] = none
  bar_of k (r ∷ rows) =
      if in_bucket k r && trades r.ts
      then some (grown (bar_at k r) (rows_in k rows))
      else bar_of k rows

  -- The buckets of the rows ascend from `c`; rows outside the sessions count for nothing.
  abbrev pub Ascending : ℕ → List Candle → Type 0
  Ascending c [] = Unit {0}
  Ascending c (r ∷ rows) = AtLeast c (bucket r.ts) × Ascending (raised_to c (bucket r.ts)) rows

  abbrev pub find_bar : ℕ → List Bar → Option Bar
  find_bar k [] = none
  find_bar k (b ∷ bars) = if b.ts == k then some b else find_bar k bars

  -- What is to come of the bucket `k`, given the bar that is being built.
  abbrev to_come : ℕ → List Candle → Option Bar → Option Bar
  to_come k rows none = bar_of k rows
  to_come k rows (some b) = if b.ts == k then some (grown b (rows_in k rows)) else bar_of k rows

  abbrev BuiltFrom : ℕ → Option Bar → Type 0
  BuiltFrom c none = Unit {0}
  BuiltFrom c (some b) = b.ts ≡ c

  rows_in-none : (k c : ℕ) (rows : List Candle) → k < c → Ascending c rows → rows_in k rows ≡ []
  rows_in-none k c [] below h = refl
  rows_in-none k c (r ∷ rows) below (least, rest) = elim (Option-cases (bucket r.ts)) [
    | inl outside ↦ rw outside (rows_in-none k c rows below (rw outside at rest))
    | inr (key, there) ↦
        let after : c ≤ key = rw there at least in
        rw there (ground (arith, rows_in-none k key rows (omega arith) (rw there at rest)))
  ]

  Ascending-from :
      (c key : ℕ) (rows : List Candle) → c ≤ key → Ascending key rows → Ascending c rows
  Ascending-from c key [] below h = tt
  Ascending-from c key (r ∷ rows) below (least, rest) = elim (Option-cases (bucket r.ts)) [
    | inl outside ↦ rw outside (tt, Ascending-from c key rows below (rw outside at rest))
    | inr (next, there) ↦
        let after : key ≤ next = rw there at least in
        let onward : Ascending next rows = rw there at rest in rw there (omega arith, onward)
  ]

  module _ (k key : ℕ) (r : Candle) (rows : List Candle) (there : bucket r.ts ≡ some key) where
    to_come-opens : trades r.ts ≡ true → to_come k rows (some (bar_at key r)) ≡ bar_of k (r ∷ rows)
    to_come-opens opens = elim (Bool-cases (key == k)) [
      | inl same ↦
          rw (there, opens, same)
            (ap (λ (x : ℕ). some (grown (bar_at x r) (rows_in k rows))) ((==_iff key k).0 same))
      | inr other ↦ rw (there, opens, other) refl
    ]

    to_come-quiet : trades r.ts ≡ false → bar_of k rows ≡ bar_of k (r ∷ rows)
    to_come-quiet quiet = elim (Bool-cases (key == k)) [
      | inl same ↦ rw (there, quiet, same) refl
      | inr other ↦ rw (there, quiet, other) refl
    ]

    rows_in-same : (key == k) ≡ true → rows_in k (r ∷ rows) ≡ r ∷ rows_in k rows
    rows_in-same same = rw (there, same) refl

    rows_in-other : (key == k) ≡ false → rows_in k (r ∷ rows) ≡ rows_in k rows
    rows_in-other other = rw (there, other) refl

    bar_of-other : (key == k) ≡ false → bar_of k (r ∷ rows) ≡ bar_of k rows
    bar_of-other other = rw (there, other) refl

    module _ (bar : Bar) where
      to_come-added :
          (bar.ts == key) ≡ true
          → to_come k rows (some (added_to bar r)) ≡ to_come k (r ∷ rows) (some bar)
      to_come-added same = elim (Bool-cases (bar.ts == k)) [
        | inl here ↦ rw (here, rows_in-same (ground arith)) refl
        | inr other ↦ rw (other, bar_of-other (ground arith)) refl
      ]

      to_come-kept :
          (bar.ts == key) ≡ false
          → trades r.ts ≡ false
          → to_come k rows (some bar) ≡ to_come k (r ∷ rows) (some bar)
      to_come-kept later quiet = elim (Bool-cases (bar.ts == k)) [
        | inl here ↦ rw (here, rows_in-other (ground arith)) refl
        | inr other ↦ rw other (to_come-quiet quiet)
      ]

      to_come-closed :
          (bar.ts == key) ≡ false
          → bar.ts ≤ key
          → Ascending key rows
          → trades r.ts ≡ true
          → (if bar.ts == k then some bar else to_come k rows (some (bar_at key r)))
            ≡ to_come k (r ∷ rows) (some bar)
      to_come-closed later after onward opens = elim (Bool-cases (bar.ts == k)) [
        | inl here ↦
            let none_more : rows_in k rows ≡ [] = rows_in-none k key rows (ground arith) onward in
            rw (here, rows_in-other (ground arith), none_more) refl
        | inr other ↦ rw (other, to_come-opens opens) refl
      ]

  find_bar-aggregate_from :
      (k c : ℕ) (rows : List Candle) (cur : Option Bar)
      → BuiltFrom c cur
      → Ascending c rows
      → find_bar k (aggregate_from bucket trades rows cur) ≡ to_come k rows cur
  unfolding aggregate_from add_row
  find_bar-aggregate_from k c [] none b h = refl
  find_bar-aggregate_from k c [] (some bar) b h = refl
  find_bar-aggregate_from k c (r ∷ rows) none b (least, rest) = elim (Option-cases (bucket r.ts)) [
    | inl outside ↦
        rw (outside, add_row) (find_bar-aggregate_from k c rows none tt (rw outside at rest))
    | inr (key, there) ↦
        let onward : Ascending key rows = rw there at rest in
        elim (Bool-cases (trades r.ts)) [
          | inl opens ↦
              let opened = to_come-opens k key r rows there opens in
              let ih = find_bar-aggregate_from k key rows (some (bar_at key r)) refl onward in
              let step : add_row bucket trades r none ≡ ([], some (bar_at key r)) =
                rw (there, opens, add_row) refl in
              rw (step, aggregate_from) (ih ∙ opened)
          | inr quiet ↦
              let ih = find_bar-aggregate_from k key rows none tt onward in
              let step : add_row bucket trades r none ≡ ([], none) =
                rw (there, quiet, add_row) refl in
              rw (step, aggregate_from) (ih ∙ to_come-quiet k key r rows there quiet)
        ]
  ]
  find_bar-aggregate_from k c (r ∷ rows) (some bar) b (least, rest) =
      elim (Option-cases (bucket r.ts)) [
        | inl outside ↦
            rw (outside, add_row)
              (find_bar-aggregate_from k c rows (some bar) b (rw outside at rest))
        | inr (key, there) ↦
            let after : c ≤ key = rw there at least in
            let onward : Ascending key rows = rw there at rest in
            elim (Bool-cases (bar.ts == key)) [
              | inl same ↦
                  let ih =
                    find_bar-aggregate_from k key rows (some (added_to bar r)) (ground arith)
                      onward in
                  let step : add_row bucket trades r (some bar) ≡ ([], some (added_to bar r)) =
                    rw (there, same, add_row) refl in
                  rw (step, aggregate_from) (ih ∙ to_come-added k key r rows there bar same)
              | inr later ↦ elim (Bool-cases (trades r.ts)) [
                | inl opens ↦
                    let ih = find_bar-aggregate_from k key rows (some (bar_at key r)) refl onward in
                    let step : add_row bucket trades r (some bar)
                        ≡ (bar ∷ [], some (bar_at key r)) =
                      rw (there, later, opens, add_row) refl in
                    rw (step, aggregate_from)
                      (ap (λ x. if bar.ts == k then some bar else x) ih
                        ∙ to_come-closed k key r rows there bar later (omega arith) onward opens)
                | inr quiet ↦
                    let ih =
                      find_bar-aggregate_from k c rows (some bar) b
                        (Ascending-from c key rows after onward) in
                    let step : add_row bucket trades r (some bar) ≡ ([], some bar) =
                      rw (there, later, quiet, add_row) refl in
                    rw (step, aggregate_from) (ih ∙ to_come-kept k key r rows there bar later quiet)
              ]
            ]
      ]

-- Where the buckets of the rows ascend, the bars of a longer timeframe are, bucket for bucket, what
-- the rows of the bucket make: none without a row that trades, and else the bar that the first such
-- row opens and that all later rows of the bucket extend in its high, low, close and volume.
pub find_bar-aggregate_intraday :
    (bucket : ℕ → Option ℕ) (trades : ℕ → Bool) (rows : List Candle) (k : ℕ)
    → Ascending bucket trades 0 rows
    → find_bar bucket trades k (aggregate_intraday bucket trades rows) ≡ bar_of bucket trades k rows
unfolding aggregate_intraday
find_bar-aggregate_intraday bucket trades rows k h =
    find_bar-aggregate_from bucket trades k 0 rows none tt h
