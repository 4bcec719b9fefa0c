-- ===== src/Candles/Bucketing/Bounds.antt =====
-- Where the bucket of a time lies.
use quanquant.Base.{
  ℕ, ◌+◌, ◌-◌, ◌*◌, ◌/◌, ◌%◌, ◌≤◌, ◌<◌, ◌≡◌, refl, ap, sym, subst, ◌∙◌, none, some, leb,
  if◌then◌else◌, arith, Option-cases, inl, inr,
}
use native.Mathlib.Nat.{div-mul-le_self, lt-div-mul-add, mul-div_cancel}
use quanquant.Candles.Bucketing.{
  cst, ms, Session, session_bounds_cst, start_in, bucket_start_ms, bucket_close_ms,
}

-- A time lies in its session, up to the end of the closing minute.
pub session_bounds_lem :
    (wall : ℕ) (s : Session)
    → session_bounds_cst wall ≡ some s
    → 28800000 ≤ wall
    → (s.opens ≤ wall) × (wall < s.closes + 60000) × (s.opens + 18000000 ≤ s.closes)
unfolding session_bounds_cst
session_bounds_lem wall s h late = ground arith

-- A session is an interval: every time between its bounds is in it.
pub session_bounds_same :
    (wall w : ℕ) (s : Session)
    → session_bounds_cst wall ≡ some s
    → 28800000 ≤ wall
    → s.opens ≤ w
    → w < s.closes + 60000
    → session_bounds_cst w ≡ some s
unfolding session_bounds_cst
session_bounds_same wall w s h late after before = ground arith

start_bounds :
    (wall minutes : ℕ) (s : Session)
    → 0 < minutes
    → s.opens ≤ wall
    → s.opens + 18000000 ≤ s.closes
    → (s.opens ≤ start_in wall s minutes)
      × (start_in wall s minutes ≤ wall)
      × (start_in wall s minutes < s.closes)
start_bounds wall minutes s some_minutes after length =
    let elapsed = (wall - s.opens) / 60000 in
    let whole = (s.closes - s.opens) / 60000 in
    ground (arith, div-mul-le_self elapsed minutes, div-mul-le_self (whole - 1) minutes)

-- The bucket of the minute that many minutes after the opening.
start_of_minute :
    (minutes counted : ℕ) (s : Session)
    → s.opens + (counted + 1) * 60000 ≤ s.closes
    → start_in (s.opens + counted * 60000) s minutes ≡ s.opens + counted / minutes * minutes * 60000
start_of_minute minutes counted s inside = ground arith

start_in_again :
    (wall minutes : ℕ) (s : Session)
    → 0 < minutes
    → s.opens ≤ wall
    → s.opens + 18000000 ≤ s.closes
    → start_in (start_in wall s minutes) s minutes ≡ start_in wall s minutes
start_in_again wall minutes s some_minutes after length =
    let elapsed = (wall - s.opens) / 60000 in
    let whole = (s.closes - s.opens) / 60000 in
    let counted : ℕ = if leb whole elapsed then whole - 1 else elapsed in
    let below : counted / minutes * minutes ≤ counted = div-mul-le_self counted minutes in
    let inside : s.opens + (counted / minutes * minutes + 1) * 60000 ≤ s.closes = ground arith in
    start_of_minute minutes (counted / minutes * minutes) s inside
    ∙ rw (mul-div_cancel (counted / minutes) some_minutes) refl

start_in_minute :
    (wall minutes : ℕ) (s : Session)
    → s.opens ≤ wall
    → s.opens + 18000000 ≤ s.closes
    → start_in (start_in wall s 1) s minutes ≡ start_in wall s minutes
start_in_minute wall minutes s after length =
    let elapsed = (wall - s.opens) / 60000 in
    let whole = (s.closes - s.opens) / 60000 in
    let counted : ℕ = if leb whole elapsed then whole - 1 else elapsed in
    let inside : s.opens + (counted + 1) * 60000 ≤ s.closes = ground arith in
    let one_minute : start_in wall s 1 ≡ s.opens + counted * 60000 = omega arith in
    rw one_minute (start_of_minute minutes counted s inside)

-- No session of the epoch opens before the epoch.
session_opens_late :
    (ts : ℕ) (s : Session) → session_bounds_cst (cst ts) ≡ some s → 28800000 ≤ s.opens
unfolding session_bounds_cst
session_opens_late ts s h = ground arith

session_length :
    (wall : ℕ) (s : Session)
    → session_bounds_cst wall ≡ some s
    → 28800000 ≤ wall
    → (s.closes - s.opens) % 60000 ≡ 0
unfolding session_bounds_cst
session_length wall s h late = ground arith

start_reaches :
    (wall minutes : ℕ) (s : Session)
    → 0 < minutes
    → s.opens ≤ wall
    → wall < s.closes + 60000
    → s.opens + 18000000 ≤ s.closes
    → (s.closes - s.opens) % 60000 ≡ 0
    → wall < start_in wall s minutes + minutes * 60000 + 60000
start_reaches wall minutes s some_minutes after before length even =
    let elapsed = (wall - s.opens) / 60000 in
    let whole = (s.closes - s.opens) / 60000 in
    let counted : ℕ = if leb whole elapsed then whole - 1 else elapsed in
    let near : counted < counted / minutes * minutes + minutes = lt-div-mul-add some_minutes in
    let reached : wall < s.opens + (counted + 2) * 60000 = ground arith in
    omega (arith, near, reached)

-- What a bucket is, where it starts in the session of a time.
pub record IsBucket (ts minutes b : ℕ) : Type 0 where
  pub starts_before : b ≤ ts
  pub not_empty : b < bucket_close_ms b minutes
  pub reaches : ts < bucket_close_ms b minutes + 60000
  pub own_start : bucket_start_ms b minutes ≡ some b

-- The bucket of a wall clock in a session.
start_of_wall :
    (wall minutes : ℕ) (s : Session)
    → 28800000 ≤ wall
    → session_bounds_cst wall ≡ some s
    → bucket_start_ms (ms wall) minutes ≡ some (ms (start_in wall s minutes))
unfolding bucket_start_ms
start_of_wall wall minutes s late there =
    let back : cst (ms wall) ≡ wall = omega arith in
    let there' : session_bounds_cst (cst (ms wall)) ≡ some s = rw back there in
    rw (there', bucket_start_ms) (ap (λ (x : ℕ). some (ms (start_in x s minutes))) back)

module _ (ts minutes : ℕ) (s : Session) (some_minutes : 0 < minutes)
    (there : session_bounds_cst (cst ts) ≡ some s) where
  bucket_session :
      (session_bounds_cst (start_in (cst ts) s minutes) ≡ some s)
      × (28800000 ≤ start_in (cst ts) s minutes)
  bucket_session =
      let (after, before, length) = session_bounds_lem (cst ts) s there (omega arith) in
      let (in_after, in_before, in_session) =
        start_bounds (cst ts) minutes s some_minutes after length in
      let late = session_opens_late ts s there in
      (
        session_bounds_same (cst ts) (start_in (cst ts) s minutes) s there (omega arith) in_after
            (omega arith),
        omega arith,
      )

  start_in-IsBucket : IsBucket ts minutes (ms (start_in (cst ts) s minutes))
  unfolding bucket_close_ms
  start_in-IsBucket =
      let (after, before, length) = session_bounds_lem (cst ts) s there (omega arith) in
      let (in_after, in_before, in_session) =
        start_bounds (cst ts) minutes s some_minutes after length in
      let (same, late) = bucket_session in
      let even = session_length (cst ts) s there (omega arith) in
      let far = start_reaches (cst ts) minutes s some_minutes after before length even in
      let back : cst (ms (start_in (cst ts) s minutes)) ≡ start_in (cst ts) s minutes =
        omega arith in
      record {
        starts_before = omega arith;
        not_empty = rw (back, same, bucket_close_ms) (ground arith);
        reaches = rw (back, same, bucket_close_ms) (ground arith);
        own_start =
            start_of_wall (start_in (cst ts) s minutes) minutes s late same
            ∙ ap (λ (x : ℕ). some (ms x))
                (start_in_again (cst ts) minutes s some_minutes after length);
      }

-- The bucket of a time in a session starts at or before it, is not empty, is over at most a minute
-- before it (a tick of the closing minute belongs to the last bucket), and its start is in it.
pub bucket_start_ms-IsBucket :
    (ts minutes b : ℕ) → 0 < minutes → bucket_start_ms ts minutes ≡ some b → IsBucket ts minutes b
unfolding bucket_start_ms
bucket_start_ms-IsBucket ts minutes b some_minutes h =
    elim (Option-cases (session_bounds_cst (cst ts))) [
      | inl closed ↦
          let nothing : none ≡ some b = rw (closed, bucket_start_ms) at h in absurd (cc nothing)
      | inr (s, there) ↦
          let same : some (ms (start_in (cst ts) s minutes)) ≡ some b =
            rw (there, bucket_start_ms) at h in
          subst (IsBucket ts minutes) (cc same) (start_in-IsBucket ts minutes s some_minutes there)
    ]

-- The bucket of a time in any timeframe is the bucket of the one-minute candle that the time is in, so
-- a longer bar made of one-minute candles covers what it would cover if it was made of the ticks.
pub bucket_start_ms-minute :
    (ts minutes start : ℕ)
    → bucket_start_ms ts 1 ≡ some start
    → bucket_start_ms start minutes ≡ bucket_start_ms ts minutes
unfolding bucket_start_ms
bucket_start_ms-minute ts minutes start h = elim (Option-cases (session_bounds_cst (cst ts))) [
  | inl closed ↦
      let nothing : none ≡ some start = rw (closed, bucket_start_ms) at h in absurd (cc nothing)
  | inr (s, there) ↦
      let same : some (ms (start_in (cst ts) s 1)) ≡ some start =
        rw (there, bucket_start_ms) at h in
      let (after, before, length) = session_bounds_lem (cst ts) s there (omega arith) in
      let (kept, late) = bucket_session ts 1 s (omega arith) there in
      let this : bucket_start_ms ts minutes ≡ some (ms (start_in (cst ts) s minutes)) =
        rw (there, bucket_start_ms) refl in
      subst (λ x. bucket_start_ms x minutes ≡ bucket_start_ms ts minutes) (cc same)
        (start_of_wall (start_in (cst ts) s 1) minutes s late kept
          ∙ (ap (λ (x : ℕ). some (ms x)) (start_in_minute (cst ts) minutes s after length)
              ∙ sym this))
]
