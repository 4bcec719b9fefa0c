-- ===== src/Broker/InboxWorker/Kept.antt =====
-- What becomes of the rows of the inbox, of a row that is settled in particular.
use quanquant.Base.{
  ℕ, ◌≡◌, refl, sym, ◌∙◌, true, false, ◌&&◌, ◌||◌, Option, some, List, [], ◌∷◌, String, arith,
  Bool-cases, Option-cases, inl, inr, ◌⊎◌, update_where, ◌==◌, ==_iff, ltb,
}
use mathlib.Core.Option.{some-injective}
use quanquant.Broker.Positions.{Decimals, Fill}
use quanquant.Broker.Inbox.{
  RawInbox, get_row, by_row_id, is_waiting, done_at, mark_raw_inbox_processed, quarantined,
  quarantine_raw_inbox, unquarantine_stale_raw_inbox,
}
use quanquant.Broker.Inbox.Quarantine.{get_row-id, get_row-update, is_dead, update_first-dead}
use quanquant.Broker.InboxWorker.{
  Store, Mapped, OrderReport, Processed, done, held, raised, Handled, landed, no_landing, failed,
  conclude, process_row, process_one,
}
use quanquant.Broker.InboxWorker.Ends.{Ends, process_row-Ends, delivered_fill}
use quanquant.Broker.InboxWorker.Batch.{
  Worker, Pass, count_row, waiting_ids, free_waiting, process_ids, after_pass,
  retry_association_pending_once, process_batch_once,
}

-- The transaction of a row failed and changed nothing, or it settled that row and wrote no other.
pub record RowWritten (id : ℕ) (s : Store) (r : Handled × Store) : Type 0 where
  pub write : RawInbox → RawInbox
  pub same_id : (q : RawInbox) → (write q).id ≡ q.id
  pub same_payload : (q : RawInbox) → (write q).payload ≡ q.payload
  pub settles : (q : RawInbox) → is_waiting (write q) ≡ false
  pub written : r.1.books.raw ≡ update_where (by_row_id id) write s.books.raw

abbrev Concludes : ℕ → Store → Handled × Store → Type 0
Concludes id s r = ((r.0 ≡ failed) × (r.1 ≡ s)) ⊎ RowWritten id s r

done-RowWritten :
    (id now : ℕ) (s s' : Store)
    → s'.books.raw ≡ mark_raw_inbox_processed id now s.books.raw
    → RowWritten id s (landed, s')
unfolding mark_raw_inbox_processed
done-RowWritten id now s s' e = record {
  write = done_at now;
  same_id = λ q. refl;
  same_payload = λ q. refl;
  settles = λ q. refl;
  written = e;
}

module _ (dec : Decimals) (day_for : ℕ → String) where
  conclude-Concludes :
      (delivered : Option Fill) (row : RawInbox) (now : ℕ) (s : Store) (r : Processed)
      → Ends delivered dec day_for row now s r
      → Concludes row.id s (conclude row.id now s r)
  unfolding quarantine_raw_inbox
  conclude-Concludes delivered row now s raised e = inl (refl, refl)
  conclude-Concludes delivered row now s (held reason) e = inr (record {
    write = quarantined reason now;
    same_id = λ q. ground arith;
    same_payload = λ q. ground arith;
    settles = λ q. ground arith;
    written = refl;
  })
  conclude-Concludes delivered row now s (done s') (inl same) =
      inr (done-RowWritten row.id now s s' (rw same))
  conclude-Concludes delivered row now s (done s') (inr (inl booked)) =
      inr (done-RowWritten row.id now s s' (rw booked.stored))
  conclude-Concludes delivered row now s (done s') (inr (inr reported)) =
      inr (done-RowWritten row.id now s s' (rw (reported.stored, reported.kept.1)))

module _ {P : Type 0} (decode : String → Option P) (map_deal : P → Option String → Mapped Fill)
    (map_order_report : P → Option String → Mapped OrderReport) (dec : Decimals)
    (day_for : ℕ → String) where
  process_waiting :
      (row_id now : ℕ) (s : Store) (row : RawInbox)
      → get_row row_id s.books.raw ≡ some row
      → is_waiting row ≡ true
      → Concludes row_id s (process_one decode map_deal map_order_report dec day_for row_id now s)
  unfolding process_one
  process_waiting row_id now s row e h =
      let same = get_row-id row_id s.books.raw row e in
      let waiting : row.processed || row.quarantine ≡ false = ground arith in
      rw (e, process_one, waiting, ← same)
        (conclude-Concludes dec day_for (delivered_fill decode map_deal row) row now s
          (process_row decode map_deal map_order_report dec day_for row now s)
          (process_row-Ends (delivered_fill decode map_deal row) dec day_for row now s decode
            map_deal map_order_report refl))

  -- Processing a waiting row either fails and changes nothing, so that the next round finds the row,
  -- or leaves the row in the inbox with its payload, no longer waiting.
  pub process_one-kept :
      (row_id now : ℕ) (s : Store) (row : RawInbox)
      → get_row row_id s.books.raw ≡ some row
      → is_waiting row ≡ true
      → (((process_one decode map_deal map_order_report dec day_for row_id now s).0 ≡ failed)
          × ((process_one decode map_deal map_order_report dec day_for row_id now s).1 ≡ s))
        ⊎ ((r : RawInbox) × (get_row row_id
                (process_one decode map_deal map_order_report dec day_for row_id now s).1.books.raw
              ≡ some r)
            × (is_waiting r ≡ false)
            × (r.payload ≡ row.payload))
  process_one-kept row_id now s row e h = elim (process_waiting row_id now s row e h) [
    | inl lost ↦ inl lost
    | inr w ↦ inr (
      w.write row,
      rw w.written (ground (arith, get_row-update w.write row_id row_id s.books.raw w.same_id)),
      w.settles row,
      w.same_payload row,
    )
  ]

  -- A row that is not waiting is left alone, whichever row is processed.
  process_one-settled :
      (row_id now j : ℕ) (s : Store) (r : RawInbox)
      → get_row j s.books.raw ≡ some r
      → is_waiting r ≡ false
      → get_row j
          (process_one decode map_deal map_order_report dec day_for row_id now s).1.books.raw
        ≡ some r
  unfolding process_one
  process_one-settled row_id now j s r e h = elim (Option-cases (get_row row_id s.books.raw)) [
    | inl missing ↦ rw (missing, process_one) e
    | inr (row, found) ↦ elim (Bool-cases (row.processed || row.quarantine)) [
      | inl over ↦ rw (found, process_one, over) e
      | inr waiting ↦
          let is_waiting_row : is_waiting row ≡ true = ground arith in
          elim (process_waiting row_id now s row found is_waiting_row) [
            | inl (_, same) ↦ rw same e
            | inr w ↦ elim (Bool-cases (row_id == j)) [
              | inr other ↦
                  rw w.written (get_row-update w.write row_id j s.books.raw w.same_id ∙ rw other e)
              | inl same ↦
                  let there : get_row row_id s.books.raw ≡ some r =
                    rw ((==_iff row_id j).0 same) e in
                  let one : row ≡ r = some-injective row r (sym found ∙ there) in
                  let wrong : is_waiting r ≡ true = rw (← one) is_waiting_row in absurd (cc)
            ]
          ]
    ]
  ]

  process_ids-settled :
      (ids : List ℕ) (now j : ℕ) (p : Pass) (r : RawInbox)
      → get_row j p.store.books.raw ≡ some r
      → is_waiting r ≡ false
      → get_row j
          (process_ids decode map_deal map_order_report dec day_for ids now p).store.books.raw
        ≡ some r
  process_ids-settled [] now j p r e h = e
  process_ids-settled (id ∷ ids) now j p r e h =
      let one = process_one decode map_deal map_order_report dec day_for id now p.store in
      process_ids-settled ids now j (count_row one p) r
        (counted one (process_one-settled id now j p.store r e h)) h
    where
      counted :
          (one : Handled × Store)
          → get_row j one.1.books.raw ≡ some r
          → get_row j (count_row one p).store.books.raw ≡ some r
      counted (landed, s) b = b
      counted (no_landing _, s) b = b
      counted (failed, s) b = b

  dead_is_settled : (r : RawInbox) → is_dead r ≡ true → is_waiting r ≡ false
  dead_is_settled r h = ground arith

  retry-dead :
      (w : Worker) (now j : ℕ) (s : Store) (r : RawInbox)
      → get_row j s.books.raw ≡ some r
      → is_dead r ≡ true
      → get_row j
          (retry_association_pending_once decode map_deal map_order_report dec day_for w now
            s).2.books.raw
        ≡ some r
  unfolding retry_association_pending_once unquarantine_stale_raw_inbox
  retry-dead w now j s r e h =
      let there = update_first-dead 200 now w.user_id j s.books.raw r e h in
      elim (Bool-cases ((free_waiting w now s).0 == 0)) [
        | inl clean ↦ rw clean there
        | inr some_freed ↦ rw some_freed (
            process_ids-settled (waiting_ids w (free_waiting w now s).1) now j _ r there
              (dead_is_settled r h))
      ]

  -- A dead letter stays in the inbox as it is through a batch and its retry, whatever else the batch
  -- does.
  pub process_batch_once-dead :
      (w : Worker) (now j : ℕ) (s : Store) (r : RawInbox)
      → get_row j s.books.raw ≡ some r
      → is_dead r ≡ true
      → get_row j
          (process_batch_once decode map_deal map_order_report dec day_for w now s).2.books.raw
        ≡ some r
  unfolding process_batch_once
  process_batch_once-dead w now j s r e h =
      passed
        (process_ids decode map_deal map_order_report dec day_for (waiting_ids w s) now
          (record { handled = 0; landings = 0; maybe = w.maybe_assoc_pending; store = s }))
        (process_ids-settled (waiting_ids w s) now j _ r e (dead_is_settled r h))
    where
      passed :
          (p : Pass)
          → get_row j p.store.books.raw ≡ some r
          → get_row j (after_pass decode map_deal map_order_report dec day_for w now p).2.books.raw
            ≡ some r
      passed p b = elim (Bool-cases (ltb 0 p.landings && p.maybe)) [
        | inl again ↦
            rw again (retry-dead (record w { maybe_assoc_pending = p.maybe }) now j p.store r b h)
        | inr enough ↦ rw enough b
      ]
