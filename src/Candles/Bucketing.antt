-- ===== src/Candles/Bucketing.antt =====
-- The buckets of the trading sessions (quanquant/candles/bucketing.py). A time is a count of
-- milliseconds since 1970 in UTC; a wall clock is the same count in the zone of the exchange, which
-- is eight hours ahead all year. The timeframe enters as its minutes (quanquant/candles/timeframes.py).
pub mod Bounds
mod Tests
use quanquant.Base.{
  ℕ, ◌+◌, ◌-◌, ◌*◌, ◌/◌, ◌%◌, Bool, true, false, ◌&&◌, Option, none, some, leb, min, if◌then◌else◌,
}

-- `_cst`, and back by `_ms`
abbrev pub cst : ℕ → ℕ
cst ts = ts + 28800000

abbrev pub ms : ℕ → ℕ
ms wall = wall - 28800000

-- The time of the day, in minutes.
abbrev pub time_of : ℕ → ℕ
time_of wall = wall % 86400000 / 60000

abbrev pub date_of : ℕ → ℕ
date_of wall = wall / 86400000

pub data SessionKind : Type 0 where
  day_session night_session : SessionKind

pub record Session : Type 0 where
  pub opens : ℕ
  pub closes : ℕ
  pub kind : SessionKind

-- `datetime.combine`
abbrev pub combine : ℕ → ℕ → ℕ
combine date time = date * 86400000 + time * 60000

unfoldable pub session_bounds_cst : ℕ → Option Session
session_bounds_cst wall =
    let d = date_of wall in
    let t = time_of wall in
    if leb 525 t && leb t 825
    then some (record { opens = combine d 525; closes = combine d 825; kind = day_session })
    else if leb 900 t
    then some (record { opens = combine d 900; closes = combine (d + 1) 300; kind = night_session })
    else if leb t 300
    then some (record { opens = combine (d - 1) 900; closes = combine d 300; kind = night_session })
    else none

abbrev pub kind_of : Option Session → Option SessionKind
kind_of none = none
kind_of (some s) = some s.kind

unfoldable pub session_of_ms : ℕ → Option SessionKind
session_of_ms ts = kind_of (session_bounds_cst (cst ts))

-- The bucket of a wall clock in a session: a tick of the closing minute falls into the last one.
abbrev pub start_in : ℕ → Session → ℕ → ℕ
start_in wall s minutes =
    let elapsed = (wall - s.opens) / 60000 in
    let length = (s.closes - s.opens) / 60000 in
    let counted = if leb length elapsed then length - 1 else elapsed in
    s.opens + counted / minutes * minutes * 60000

unfoldable pub bucket_start_ms : ℕ → ℕ → Option ℕ
bucket_start_ms ts minutes = elim (session_bounds_cst (cst ts)) [
  | none ↦ none
  | some s ↦ some (ms (start_in (cst ts) s minutes))
]

unfoldable pub bucket_close_ms : ℕ → ℕ → ℕ
bucket_close_ms ts minutes = elim (session_bounds_cst (cst ts)) [
  | none ↦ ts
  | some s ↦ min (ts + minutes * 60000) (ms s.closes)
]
