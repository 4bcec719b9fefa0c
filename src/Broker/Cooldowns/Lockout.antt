-- ===== src/Broker/Cooldowns/Lockout.antt =====
-- A period against its owner: what of it can be shortened, and until when it can be ended.
use quanquant.Base.{
  ℕ, ◌+◌, ◌≤◌, ◌<◌, ◌≡◌, ◌≢◌, refl, Bool, true, false, none, List, [], ◌∷◌, ◌++◌, ap, arith,
  if◌then◌else◌, update_where, All, Bool-cases, Option-cases, inl, inr, ◌⊎◌,
}
use quanquant.Broker.Cooldowns.{
  Cooldown, Cooldowns, is_active_of, last_to_end, active_cooldown, cooldown_row, create_cooldown,
  lifted, in_window, lift_cooldown_by_owner, not_lifted,
}

-- What a user can do: start a period, or take one back.
pub data CooldownCall : Type 0 where
  start : (user_id until_ms now : ℕ) → CooldownCall
  take_back : (user_id now : ℕ) → CooldownCall

unfoldable pub call : ℕ → CooldownCall → Cooldowns → Cooldowns
call window (start u until_ms now) t = (create_cooldown u until_ms now t).1
call window (take_back u now) t = (lift_cooldown_by_owner u now window t).1

unfoldable pub run : ℕ → List CooldownCall → Cooldowns → Cooldowns
run window [] t = t
run window (c ∷ cs) t = run window cs (call window c t)

-- The calls of a user to take a period back all come at `from` or later.
abbrev pub NoneBefore : ℕ → ℕ → CooldownCall → Type 0
NoneBefore u from (start _ _ _) = Unit
NoneBefore u from (take_back v now) = v ≡ u → from ≤ now

-- Some row of the table holds the user until `until_ms`, and was started at `from`.
abbrev pub Holds : ℕ → ℕ → ℕ → Cooldowns → Type 0
Holds u from until_ms [] = ⊥
Holds u from until_ms (c ∷ t) =
    ((c.user_id ≡ u) × (not_lifted c ≡ true) × (until_ms ≤ c.until_ts) × (c.created_ts ≡ from))
    ⊎ Holds u from until_ms t

Holds-append :
    (u from until_ms : ℕ) (t : Cooldowns) (c : Cooldown)
    → Holds u from until_ms t
    → Holds u from until_ms (t ++ c ∷ [])
Holds-append u from until_ms [] c h = absurd h
Holds-append u from until_ms (r ∷ t) c (inl h) = inl h
Holds-append u from until_ms (r ∷ t) c (inr h) = inr (Holds-append u from until_ms t c h)

Holds-create :
    (u from until_ms v until' now : ℕ) (t : Cooldowns)
    → Holds u from until_ms t
    → Holds u from until_ms (create_cooldown v until' now t).1
unfolding create_cooldown
Holds-create u from until_ms v until' now t h = elim (Option-cases (active_cooldown v now t)) [
  | inl free ↦
      rw (free, create_cooldown) (Holds-append u from until_ms t (cooldown_row v until' now t) h)
  | inr (c, held) ↦ rw (held, create_cooldown) h
]

Holds-lift :
    (u from until_ms v now window : ℕ) (t : Cooldowns)
    → (v ≡ u → from + window ≤ now)
    → Holds u from until_ms t
    → Holds u from until_ms (lift_cooldown_by_owner v now window t).1
unfolding lift_cooldown_by_owner
Holds-lift u from until_ms v now window [] late h = absurd h
Holds-lift u from until_ms v now window (c ∷ t) late (inl (mine, kept, ends, started)) =
    let miss : in_window v now window c ≡ false = ground (arith, late) in
    rw miss (inl (mine, kept, ends, started))
Holds-lift u from until_ms v now window (c ∷ t) late (inr h) =
    inr (Holds-lift u from until_ms v now window t late h)

Holds-call :
    (u from until_ms window : ℕ) (c : CooldownCall) (t : Cooldowns)
    → NoneBefore u (from + window) c
    → Holds u from until_ms t
    → Holds u from until_ms (call window c t)
unfolding call
Holds-call u from until_ms window (start v e now) t late h =
    Holds-create u from until_ms v e now t h
Holds-call u from until_ms window (take_back v now) t late h =
    Holds-lift u from until_ms v now window t late h

Holds-run :
    (u from until_ms window : ℕ) (calls : List CooldownCall) (t : Cooldowns)
    → All (NoneBefore u (from + window)) calls
    → Holds u from until_ms t
    → Holds u from until_ms (run window calls t)
unfolding run
Holds-run u from until_ms window [] t late h = h
Holds-run u from until_ms window (c ∷ cs) t (l, late) h =
    Holds-run u from until_ms window cs (call window c t) late
      (Holds-call u from until_ms window c t l h)

-- A row that holds the user shows in the query for the active period.
active-Holds :
    (u from until_ms now : ℕ) (t : Cooldowns)
    → Holds u from until_ms t
    → now < until_ms
    → active_cooldown u now t ≢ none
unfolding active_cooldown last_to_end
active-Holds u from until_ms now [] h before = absurd h
active-Holds u from until_ms now (c ∷ t) (inl (mine, kept, ends, _)) before =
    let hit : is_active_of u now c ≡ true = ground arith in rw (hit, last_to_end) (λ e. cc)
active-Holds u from until_ms now (c ∷ t) (inr h) before = elim (Bool-cases (is_active_of u now c)) [
  | inl hit ↦ rw (hit, last_to_end) (λ e. cc)
  | inr miss ↦ rw miss (active-Holds u from until_ms now t h before)
]

Holds-new :
    (u until_ms now : ℕ) (t s : Cooldowns)
    → Holds u now until_ms (t ++ cooldown_row u until_ms now s ∷ [])
Holds-new u until_ms now [] s = inl (refl, refl, omega arith, refl)
Holds-new u until_ms now (r ∷ t) s = inr (Holds-new u until_ms now t s)

started-Holds :
    (u until_ms now : ℕ) (t : Cooldowns)
    → (create_cooldown u until_ms now t).0 ≢ none
    → Holds u now until_ms (create_cooldown u until_ms now t).1
unfolding create_cooldown
started-Holds u until_ms now t started = elim (Option-cases (active_cooldown u now t)) [
  | inl free ↦ rw (free, create_cooldown) (Holds-new u until_ms now t t)
  | inr (c, held) ↦ absurd (started (rw (held, create_cooldown)))
]

-- Once a user has started a period, the user is in a period at every time before its end, whatever
-- periods are started or taken back by anyone, if the user takes none back within the window.
pub started-cannot_shorten :
    (u until_ms now window : ℕ) (t : Cooldowns) (calls : List CooldownCall) (then_ms : ℕ)
    → (create_cooldown u until_ms now t).0 ≢ none
    → All (NoneBefore u (now + window)) calls
    → then_ms < until_ms
    → active_cooldown u then_ms (run window calls (create_cooldown u until_ms now t).1) ≢ none
started-cannot_shorten u until_ms now window t calls then_ms started late before =
    active-Holds u now until_ms then_ms (run window calls (create_cooldown u until_ms now t).1)
      (Holds-run u now until_ms window calls (create_cooldown u until_ms now t).1 late
        (started-Holds u until_ms now t started))
      before

-- Rows that hold nobody now hold nobody later, lifted or not.
quiet_after :
    (u now then_ms by at : ℕ) (q : Cooldown → Bool) (t : Cooldowns)
    → now ≤ then_ms
    → active_cooldown u now t ≡ none
    → active_cooldown u then_ms (update_where q (lifted by at) t) ≡ none
unfolding active_cooldown last_to_end
quiet_after u now then_ms by at q [] le e = refl
quiet_after u now then_ms by at q (c ∷ t) le e = elim (Bool-cases (is_active_of u now c)) [
  | inl hit ↦ absurd (cc (rw (hit, last_to_end) at e))
  | inr miss ↦
      let off : is_active_of u then_ms (if q c then lifted by at c else c) ≡ false = ground arith in
      rw (off, last_to_end) (quiet_after u now then_ms by at q t le (rw (miss, last_to_end) at e))
]

quiet_append :
    (u now : ℕ) (t : Cooldowns) (c : Cooldown)
    → active_cooldown u now t ≡ none
    → is_active_of u now c ≡ false
    → active_cooldown u now (t ++ c ∷ []) ≡ none
unfolding active_cooldown last_to_end
quiet_append u now [] c e off = rw (off, last_to_end)
quiet_append u now (r ∷ t) c e off = elim (Bool-cases (is_active_of u now r)) [
  | inl hit ↦ absurd (cc (rw (hit, last_to_end) at e))
  | inr miss ↦ rw (miss, last_to_end) (quiet_append u now t c (rw (miss, last_to_end) at e) off)
]

update_where-append :
    (q : Cooldown → Bool) (f : Cooldown → Cooldown) (t : Cooldowns) (c : Cooldown)
    → update_where q f (t ++ c ∷ []) ≡ update_where q f t ++ (if q c then f c else c) ∷ []
update_where-append q f [] c = refl
update_where-append q f (r ∷ t) c =
    ap (λ rest. (if q r then f r else r) ∷ rest) (update_where-append q f t c)

-- A user who was in no period and starts one can end it before its end and within the window: from
-- then on the user is in no period, at the time of the call or later.
take_back_ends :
    (u until_ms now at window : ℕ) (t : Cooldowns) (then_ms : ℕ)
    → active_cooldown u now t ≡ none
    → now ≤ at
    → at < now + window
    → at < until_ms
    → at ≤ then_ms
    → active_cooldown u then_ms
        (lift_cooldown_by_owner u at window (create_cooldown u until_ms now t).1).1
      ≡ none
unfolding create_cooldown lift_cooldown_by_owner
take_back_ends u until_ms now at window t then_ms free since within before later_on =
    let c = cooldown_row u until_ms now t in
    let q = in_window u at window in
    let hit : q c ≡ true = ground arith in
    rw (free, create_cooldown, update_where-append q (lifted u at) t c, hit)
      (quiet_append u then_ms (update_where q (lifted u at) t) (lifted u at c)
        (quiet_after u now then_ms u at q t (omega arith) free) (ground arith))
