-- ===== src/Broker/Cooldowns.antt =====
-- Self-imposed cooling-off periods (quanquant/broker/repository.py, `active_cooldown` to
-- `list_active_cooldowns`; the row is `Cooldown` of quanquant/db/models.py). Times are epoch
-- milliseconds; a period is active while it is not lifted and not over.
pub mod Lockout
mod Tests
use quanquant.Base.{
  ℕ, ◌+◌, Bool, true, false, ◌&&◌, Option, none, some, List, [], ◌∷◌, ◌++◌, ltb, ◌==◌,
  if◌then◌else◌, select, update_where, count_where, length,
}

pub record Cooldown : Type 0 where
  pub id : ℕ
  pub user_id : ℕ
  pub until_ts : ℕ
  pub created_ts : ℕ
  pub lifted_by : Option ℕ
  pub lifted_ts : Option ℕ

abbrev pub Cooldowns : Type 0
Cooldowns = List Cooldown

abbrev pub not_lifted : Cooldown → Bool
not_lifted c = elim c.lifted_ts [ none ↦ true | some _ ↦ false ]

-- `lifted_ts is null and until_ts > now`
abbrev pub is_active : ℕ → Cooldown → Bool
is_active now c = not_lifted c && ltb now c.until_ts

abbrev pub is_active_of : ℕ → ℕ → Cooldown → Bool
is_active_of user_id now c = c.user_id == user_id && is_active now c

abbrev pub later : Cooldown → Option Cooldown → Cooldown
later c none = c
later c (some d) = if ltb c.until_ts d.until_ts then d else c

-- `order by until_ts desc`, `.first()`
pub last_to_end : List Cooldown → Option Cooldown
last_to_end [] = none
last_to_end (c ∷ cs) = some (later c (last_to_end cs))

unfoldable pub active_cooldown : ℕ → ℕ → Cooldowns → Option Cooldown
unfolding last_to_end
active_cooldown user_id now t = last_to_end (select (is_active_of user_id now) t)

abbrev pub cooldown_row : ℕ → ℕ → ℕ → Cooldowns → Cooldown
cooldown_row user_id until_ms now t = record {
  id = length t + 1;
  user_id = user_id;
  until_ts = until_ms;
  created_ts = now;
  lifted_by = none;
  lifted_ts = none;
}

-- A user who is in a period gets no other one.
unfoldable pub create_cooldown : ℕ → ℕ → ℕ → Cooldowns → Option Cooldown × Cooldowns
unfolding active_cooldown
create_cooldown user_id until_ms now t = elim (active_cooldown user_id now t) [
  | some _ ↦ (none, t)
  | none ↦ let row = cooldown_row user_id until_ms now t in (some row, t ++ row ∷ [])
]

abbrev pub lifted : ℕ → ℕ → Cooldown → Cooldown
lifted by now c = record c { lifted_ts = some now; lifted_by = some by }

abbrev pub unlifted_of : ℕ → Cooldown → Bool
unlifted_of user_id c = c.user_id == user_id && not_lifted c

-- The deprecated lift without a window.
unfoldable pub lift_cooldown : ℕ → ℕ → ℕ → Cooldowns → ℕ × Cooldowns
lift_cooldown user_id admin_user_id now t = (
  count_where (unlifted_of user_id) t,
  update_where (unlifted_of user_id) (lifted admin_user_id now) t,
)

-- `created_ts > now - window`, over signed numbers
abbrev pub in_window : ℕ → ℕ → ℕ → Cooldown → Bool
in_window user_id now window_ms c =
    (c.user_id == user_id && is_active now c) && ltb now (c.created_ts + window_ms)

unfoldable pub lift_cooldown_by_owner : ℕ → ℕ → ℕ → Cooldowns → ℕ × Cooldowns
lift_cooldown_by_owner user_id now window_ms t = (
  count_where (in_window user_id now window_ms) t,
  update_where (in_window user_id now window_ms) (lifted user_id now) t,
)

pub insert_by_end : Cooldown → List Cooldown → List Cooldown
insert_by_end c [] = c ∷ []
insert_by_end c (d ∷ ds) = if ltb d.until_ts c.until_ts then d ∷ insert_by_end c ds else c ∷ d ∷ ds

pub sort_by_end : List Cooldown → List Cooldown
sort_by_end [] = []
sort_by_end (c ∷ cs) = insert_by_end c (sort_by_end cs)

-- `order by until_ts asc`
unfoldable pub list_active_cooldowns : ℕ → Cooldowns → List Cooldown
unfolding insert_by_end sort_by_end
list_active_cooldowns now t = sort_by_end (select (is_active now) t)
