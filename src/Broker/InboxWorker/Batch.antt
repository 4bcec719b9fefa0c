-- ===== src/Broker/InboxWorker/Batch.antt =====
-- A batch of the worker (quanquant/broker/inbox_worker.py, `process_batch_once` and
-- `_retry_association_pending_once`): the waiting rows, and one retry of what waited for an order
-- when something landed. The tables stay balanced through it. One time is taken for the batch.
use quanquant.Base.{
  ℕ, ◌+◌, Bool, true, false, ◌&&◌, ◌||◌, Option, none, some, List, [], ◌∷◌, String, ◌==◌, ltb,
  if◌then◌else◌, map, Bool-cases, inl, inr,
}
use quanquant.Broker.Positions.{Decimals, Fill}
use quanquant.Broker.Inbox.{RawInbox, list_unprocessed_raw_inbox, unquarantine_stale_raw_inbox}
use quanquant.Broker.InboxWorker.{
  Store, with_books, Mapped, OrderReport, Handled, landed, no_landing, failed, process_one,
}
use quanquant.Broker.InboxWorker.Balance.{IsBalanced, process_one-IsBalanced}

-- What a worker keeps in memory: the guard of the retry, and the rows that the last retry freed.
pub record Worker : Type 0 where
  pub user_id : Option ℕ
  pub batch_limit : ℕ
  pub maybe_assoc_pending : Bool
  pub last_retry_released_ids : Option (List ℕ)

-- A pass over rows: how many were handled, how many landed, and the guard.
pub record Pass : Type 0 where
  pub handled : ℕ
  pub landings : ℕ
  pub maybe : Bool
  pub store : Store

abbrev pub count_row : Handled × Store → Pass → Pass
count_row (landed, s) p = record p { handled = p.handled + 1; landings = p.landings + 1; store = s }
count_row (no_landing retryable, s) p = record p {
  handled = p.handled + 1;
  maybe = p.maybe || retryable;
  store = s;
}
count_row (failed, s) p = record p { store = s }

abbrev pub same_ids : List ℕ → List ℕ → Bool
same_ids [] [] = true
same_ids (a ∷ xs) (b ∷ ys) = a == b && same_ids xs ys
same_ids _ _ = false

abbrev pub is_same_round : Option (List ℕ) → List ℕ → Bool
is_same_round none ids = false
is_same_round (some last) ids = same_ids ids last

abbrev pub waiting_ids : Worker → Store → List ℕ
waiting_ids w s =
    map (λ (r : RawInbox). r.id) (list_unprocessed_raw_inbox w.batch_limit w.user_id s.books.raw)

-- `unquarantine_stale_raw_inbox`, with its default limit
abbrev pub free_waiting : Worker → ℕ → Store → ℕ × Store
free_waiting w now s =
    let (released, raw) = unquarantine_stale_raw_inbox now 200 w.user_id s.books.raw in
    (released, with_books (record s.books { raw = raw }) s)

module _ {P : Type 0} (decode : String → Option P) (map_deal : P → Option String → Mapped Fill)
    (map_order_report : P → Option String → Mapped OrderReport) (dec : Decimals)
    (day_for : ℕ → String) where
  abbrev pub process_ids : List ℕ → ℕ → Pass → Pass
  process_ids [] now p = p
  process_ids (id ∷ ids) now p =
      process_ids ids now
        (count_row (process_one decode map_deal map_order_report dec day_for id now p.store) p)

  -- What a retry that freed rows concludes.
  abbrev pub after_retry : Worker → List ℕ → Pass → ℕ × Worker × Store
  after_retry w ids p =
      let stuck = p.landings == 0 && is_same_round w.last_retry_released_ids ids in
      (
        p.handled,
        record w {
          maybe_assoc_pending = if stuck then false else p.maybe;
          last_retry_released_ids = some ids;
        },
        p.store,
      )

  -- `_retry_association_pending_once`
  unfoldable pub retry_association_pending_once : Worker → ℕ → Store → ℕ × Worker × Store
  retry_association_pending_once w now s =
      let (released, s') = free_waiting w now s in
      if released == 0
      then (0, record w { maybe_assoc_pending = false; last_retry_released_ids = none }, s')
      else after_retry w (waiting_ids w s') (
          process_ids (waiting_ids w s') now
            (record { handled = 0; landings = 0; maybe = w.maybe_assoc_pending; store = s' }))

  abbrev pub after_pass : Worker → ℕ → Pass → ℕ × Worker × Store
  after_pass w now p =
      let w' : Worker = record w { maybe_assoc_pending = p.maybe } in
      let (retried, w'', s) = retry_association_pending_once w' now p.store in
      if ltb 0 p.landings && p.maybe
      then (p.handled + retried, w'', s)
      else (p.handled, w', p.store)

  unfoldable pub process_batch_once : Worker → ℕ → Store → ℕ × Worker × Store
  process_batch_once w now s = after_pass w now (
      process_ids (waiting_ids w s) now
        (record { handled = 0; landings = 0; maybe = w.maybe_assoc_pending; store = s }))

  process_ids-IsBalanced :
      (ids : List ℕ) (now : ℕ) (p : Pass)
      → IsBalanced p.store
      → IsBalanced (process_ids ids now p).store
  process_ids-IsBalanced [] now p h = h
  process_ids-IsBalanced (id ∷ ids) now p h =
      let r = process_one decode map_deal map_order_report dec day_for id now p.store in
      process_ids-IsBalanced ids now (count_row r p) (
        counted r
          (process_one-IsBalanced decode map_deal map_order_report dec day_for id now p.store h))
    where
      counted : (r : Handled × Store) → IsBalanced r.1 → IsBalanced (count_row r p).store
      counted (landed, s) b = b
      counted (no_landing _, s) b = b
      counted (failed, s) b = b

  retry-IsBalanced :
      (w : Worker) (now : ℕ) (s : Store)
      → IsBalanced s
      → IsBalanced (retry_association_pending_once w now s).2
  unfolding retry_association_pending_once
  retry-IsBalanced w now s h = elim (Bool-cases ((free_waiting w now s).0 == 0)) [
    | inl clean ↦ rw clean h
    | inr some_freed ↦
        rw some_freed (process_ids-IsBalanced (waiting_ids w (free_waiting w now s).1) now _ h)
  ]

  -- A batch with its retry, on any inbox and with any mappers, keeps the lots of every scope equal to
  -- the sum of its deals.
  pub process_batch_once-IsBalanced :
      (w : Worker) (now : ℕ) (s : Store) → IsBalanced s → IsBalanced (process_batch_once w now s).2
  unfolding process_batch_once
  process_batch_once-IsBalanced w now s h =
      passed
        (process_ids (waiting_ids w s) now
          (record { handled = 0; landings = 0; maybe = w.maybe_assoc_pending; store = s }))
        (process_ids-IsBalanced (waiting_ids w s) now _ h)
    where
      passed : (p : Pass) → IsBalanced p.store → IsBalanced (after_pass w now p).2
      passed p b = elim (Bool-cases (ltb 0 p.landings && p.maybe)) [
        | inl again ↦
            rw again (retry-IsBalanced (record w { maybe_assoc_pending = p.maybe }) now p.store b)
        | inr enough ↦ rw enough b
      ]
