-- ===== src/Broker/Orders/Progress.antt =====
-- Reports and fills in any order: what they can and what they cannot do to an order.
use quanquant.Base.{
  ℕ, ◌+◌, ◌≤◌, ◌<◌, ◌≡◌, ◌≢◌, refl, ◌∙◌, Bool, true, false, Option, none, List, [], ◌∷◌, arith, leb,
  if◌then◌else◌, All,
}
use native.Mathlib.Decide.{dec_le}
use native.Mathlib.Nat.{add-zero, add_assoc}
use quanquant.Base.Int.{ℤ}
use quanquant.Broker.Orders.{Order, apply_order_fill, mark_order_status, guarded, or_else}
use quanquant.Broker.Orders.Status.{
  OrderStatus, partfilled, filled, cancelled, failed, unknown, order_status_transition_allowed,
  status_rank, is_terminal,
}

-- A status that the broker's reports cannot move any more.
abbrev pub is_finished : OrderStatus → Bool
is_finished filled = true
is_finished s = is_terminal s

-- How far an order has come; `unknown` stands outside this order.
abbrev pub stage : OrderStatus → ℕ
stage cancelled = 6
stage failed = 6
stage s = status_rank s

pub data OrderEvent : Type 0 where
  report : OrderStatus → ℕ → OrderEvent
  fill : ℕ → ℤ → Option OrderStatus → ℕ → OrderEvent

-- The event brings no `unknown`.
abbrev pub IsKnown : OrderEvent → Type 0
IsKnown (report s _) = s ≢ unknown
IsKnown (fill _ _ s _) = or_else s filled ≢ unknown

module _ (quot : ℤ → ℕ → ℤ) where
  unfoldable pub after : OrderEvent → Order → Order
  after (report s now) o = mark_order_status s now o
  after (fill q p s now) o = apply_order_fill quot q p s now o

  unfoldable pub after_all : List OrderEvent → Order → Order
  after_all [] o = o
  after_all (e ∷ events) o = after_all events (after e o)

guarded_final : (s n : OrderStatus) → is_finished s ≡ true → guarded s n ≡ s
unfolding order_status_transition_allowed
guarded_final s n h = ground arith

guarded-stage : (s n : OrderStatus) → s ≢ unknown → n ≢ unknown → stage s ≤ stage (guarded s n)
unfolding order_status_transition_allowed
guarded-stage s n h k = ground arith

guarded_known : (s n : OrderStatus) → s ≢ unknown → n ≢ unknown → guarded s n ≢ unknown
guarded_known s n h k = ground arith

mark-status :
    (s : OrderStatus) (now : ℕ) (o : Order)
    → (mark_order_status s now o).status ≡ guarded o.status s
unfolding mark_order_status
mark-status s now o = ground arith

-- The status that a fill proposes.
abbrev proposed : ℕ → Option OrderStatus → Order → OrderStatus
proposed q s o = or_else s (if leb o.qty (o.filled_qty + q) then filled else partfilled)

proposed_known :
    (q : ℕ) (s : Option OrderStatus) (o : Order)
    → or_else s filled ≢ unknown
    → proposed q s o ≢ unknown
proposed_known q s o h = ground arith

module _ (quot : ℤ → ℕ → ℤ) where
  after_final :
      (e : OrderEvent) (o : Order)
      → is_finished o.status ≡ true
      → (after quot e o).status ≡ o.status
  unfolding after apply_order_fill
  after_final (report s now) o h = mark-status s now o ∙ guarded_final o.status s h
  after_final (fill q p s now) o h = guarded_final o.status (proposed q s o) h

  -- A filled, cancelled or failed order keeps its status, whatever reports and fills come in whatever order.
  pub final_for_good :
      (events : List OrderEvent) (o : Order)
      → is_finished o.status ≡ true
      → (after_all quot events o).status ≡ o.status
  unfolding after_all
  final_for_good [] o h = refl
  final_for_good (e ∷ events) o h =
      final_for_good events (after quot e o) (rw (after_final e o h) h) ∙ after_final e o h

  after-stage :
      (e : OrderEvent) (o : Order)
      → o.status ≢ unknown
      → IsKnown e
      → (stage o.status ≤ stage (after quot e o).status) × ((after quot e o).status ≢ unknown)
  unfolding after apply_order_fill
  after-stage (report s now) o h k =
      rw (mark-status s now o) (guarded-stage o.status s h k, guarded_known o.status s h k)
  after-stage (fill q p s now) o h k =
      let known = proposed_known q s o k in
      (
        guarded-stage o.status (proposed q s o) h known,
        guarded_known o.status (proposed q s o) h known,
      )

  -- Without `unknown`, reports and fills in any order, replayed or late, never take an order back.
  pub stage-after_all :
      (events : List OrderEvent) (o : Order)
      → o.status ≢ unknown
      → All IsKnown events
      → stage o.status ≤ stage (after_all quot events o).status
  unfolding after_all
  stage-after_all [] o h k = omega arith
  stage-after_all (e ∷ events) o h k =
      let (up, known) = after-stage e o h k.0 in
      omega (arith, stage-after_all events (after quot e o) known k.1)

-- The quantity that the fills among the events add.
abbrev pub filled_by : List OrderEvent → ℕ
filled_by [] = 0
filled_by (report _ _ ∷ events) = filled_by events
filled_by (fill q _ _ _ ∷ events) = q + filled_by events

-- A plain fill: a quantity, at any price, and no status of its own.
abbrev pub IsPlainFill : OrderEvent → Type 0
IsPlainFill (report _ _) = ⊥
IsPlainFill (fill q _ s _) = (0 < q) × (s ≡ none)

module _ (quot : ℤ → ℕ → ℤ) where
  mark-filled_qty :
      (s : OrderStatus) (now : ℕ) (o : Order)
      → ((mark_order_status s now o).filled_qty ≡ o.filled_qty)
        × ((mark_order_status s now o).qty ≡ o.qty)
  unfolding mark_order_status
  mark-filled_qty s now o = ground arith

  -- Reports never touch the filled quantity, and fills add up, in any order.
  pub filled_qty-after_all :
      (events : List OrderEvent) (o : Order)
      → (after_all quot events o).filled_qty ≡ o.filled_qty + filled_by events
  unfolding after_all after apply_order_fill
  filled_qty-after_all [] o = omega arith
  filled_qty-after_all (report s now ∷ events) o =
      omega
        (arith, filled_qty-after_all events (mark_order_status s now o), mark-filled_qty s now o)
  filled_qty-after_all (fill q p s now ∷ events) o =
      omega (arith, filled_qty-after_all events (apply_order_fill quot q p s now o))

  -- What a plain fill makes of a working order.
  fill_status :
      (q : ℕ) (p : ℤ) (s : Option OrderStatus) (now : ℕ) (o : Order)
      → s ≡ none
      → is_finished o.status ≡ false
      → (apply_order_fill quot q p s now o).status
        ≡ (if leb o.qty (o.filled_qty + q) then filled else partfilled)
  unfolding apply_order_fill order_status_transition_allowed
  fill_status q p s now o e h = ground arith

regroup :
    (n a b c : ℕ)
    → (if leb n (a + b + c) then filled else partfilled)
      ≡ (if leb n (a + (b + c)) then filled else partfilled)
regroup n a b c = rw add_assoc

module _ (quot : ℤ → ℕ → ℤ) where
  more_fills :
      (events : List OrderEvent) (o : Order)
      → o.status ≡ (if leb o.qty o.filled_qty then filled else partfilled)
      → All IsPlainFill events
      → (after_all quot events o).status
        ≡ (if leb o.qty (o.filled_qty + filled_by events) then filled else partfilled)
  unfolding after_all after apply_order_fill
  more_fills [] o h k = rw (add-zero, h)
  more_fills (report s now ∷ events) o h (k, _) = absurd k
  more_fills (fill q p s now ∷ events) o h (k, rest) = elim (dec_le o.qty o.filled_qty) [
    | yes done ↦
        let full : o.status ≡ filled = ground arith in
        let kept = final_for_good quot (fill q p s now ∷ events) o (rw full) in ground arith
    | no short ↦
        let working : is_finished o.status ≡ false = ground arith in
        more_fills events (apply_order_fill quot q p s now o)
          (fill_status quot q p s now o k.1 working) rest
        ∙ regroup o.qty o.filled_qty q (filled_by events)
  ]

  -- From an order that is not final, a non-empty sequence of fills with positive quantities, at any
  -- prices, and no status of their own leaves it filled if the filled quantities reach the ordered
  -- quantity, and partfilled otherwise.
  pub fills_complete :
      (e : OrderEvent) (events : List OrderEvent) (o : Order)
      → is_finished o.status ≡ false
      → All IsPlainFill (e ∷ events)
      → (after_all quot (e ∷ events) o).status
        ≡ (if leb o.qty (o.filled_qty + filled_by (e ∷ events)) then filled else partfilled)
  unfolding after_all after apply_order_fill
  fills_complete (report s now) events o h (k, _) = absurd k
  fills_complete (fill q p s now) events o h (k, rest) =
      more_fills events (apply_order_fill quot q p s now o) (fill_status quot q p s now o k.1 h)
        rest
      ∙ regroup o.qty o.filled_qty q (filled_by events)
