-- ===== src/Agent/Buffer/Kept.antt =====
-- What is left of a row that the server has not confirmed.
use quanquant.Base.{
  ℕ, ◌<◌, ◌≡◌, String, Bool, true, false, ◌&&◌, not, Option, none, some, List, [], ◌∷◌, ◌++◌, arith,
  ◌==◌, find?, select, update_where, count_where, Option-cases, inl, inr,
}
use quanquant.Base.Int.{ℤ}
use quanquant.Broker.Types.{Mode}
use quanquant.Agent.Buffer.{
  OutboxRow, Buffer, NewRow, outbox_row, is_unsent, has_id, sent_before, ensure_schema_v2,
  prune_sent, open_buffer, append, mark_sent, append_ack_if_absent, record_execution,
  assert_account, write_sentinel, clear_sentinel, set_health_epoch, ensure_cmd_ack_pending,
  by_command, ack_of, with_execution,
}

-- A call that changes the buffer. One that raises changes nothing.
pub data BufferCall : Type 0 where
  reopened : (now : ℕ) → BufferCall
  claimed_for : (account : String) → BufferCall
  appended : (row : NewRow) → BufferCall
  confirmed : (event_id now : ℕ) → BufferCall
  executed :
      (cmd_id kind result : String) (account : Option String) (mode : Option Mode) → BufferCall
  answered_again :
      (cmd_id result : String) (account : Option String) (mode : Option Mode) → BufferCall
  pruned : (days now : ℕ) → BufferCall
  failed : (epoch : ℤ) (detail : String) → BufferCall
  recovered : (epoch : ℤ) → BufferCall

abbrev kept_if : Option Buffer → Buffer → Buffer
kept_if none b = b
kept_if (some c) b = c

abbrev kept_with : Option (ℕ × Buffer) → Buffer → Buffer
kept_with none b = b
kept_with (some (id, c)) b = c

unfoldable pub buffer_call : BufferCall → Buffer → Buffer
buffer_call (reopened now) b = kept_if (open_buffer now b) b
buffer_call (claimed_for account) b = kept_if (assert_account account b) b
buffer_call (appended row) b = kept_with (append row b) b
buffer_call (confirmed id now) b = mark_sent id now b
buffer_call (executed id kind result account mode) b =
    kept_with (record_execution id kind result account mode b) b
buffer_call (answered_again id result account mode) b =
    (ensure_cmd_ack_pending id result account mode b).1
buffer_call (pruned days now) b = prune_sent days now b
buffer_call (failed epoch detail) b = write_sentinel epoch detail b
buffer_call (recovered epoch) b = clear_sentinel (set_health_epoch epoch b)

unfoldable pub buffer_calls : List BufferCall → Buffer → Buffer
buffer_calls [] b = b
buffer_calls (c ∷ cs) b = buffer_calls cs (buffer_call c b)

-- Whether the call says that the server has confirmed the row `id`.
abbrev pub confirms : ℕ → BufferCall → Bool
confirms id (confirmed event_id now) = event_id == id
confirms id _ = false

-- The row stands in the table, as it was and not sent.
abbrev pub Waits : OutboxRow → List OutboxRow → Type 0
Waits r t = find? (has_id r.id) t ≡ some r

module _ (r : OutboxRow) (unsent : is_unsent r ≡ true) where
  Waits-append : (t : List OutboxRow) (x : OutboxRow) → Waits r t → Waits r (t ++ x ∷ [])
  Waits-append [] x h = cc
  Waits-append (y ∷ t) x h = ground (arith, Waits-append t x)

  Waits-other :
      (t : List OutboxRow) (id now : ℕ)
      → (id == r.id) ≡ false
      → Waits r t
      → Waits r (update_where (has_id id) (λ x. record x { sent_at = some now }) t)
  Waits-other [] id now other h = cc
  Waits-other (y ∷ t) id now other h = ground (arith, Waits-other t id now other)

  Waits-prune :
      (t : List OutboxRow) (days now : ℕ)
      → Waits r t
      → Waits r (select (λ x. not (sent_before days now x.sent_at)) t)
  Waits-prune [] days now h = cc
  Waits-prune (y ∷ t) days now h = ground (arith, Waits-prune t days now)

  Waits-counted : (t : List OutboxRow) → Waits r t → 0 < count_where is_unsent t
  Waits-counted [] h = absurd (cc)
  Waits-counted (y ∷ t) h = ground (arith, Waits-counted t)

-- The file has its outbox, and the row waits in it.
unfoldable pub Holds : OutboxRow → Buffer → Type 0
Holds r b = (b.has_outbox ≡ true) × Waits r b.outbox

module _ (r : OutboxRow) (unsent : is_unsent r ≡ true) where
  ensure_schema_v2-Holds : (b : Buffer) → Holds r b → Holds r (kept_if (ensure_schema_v2 b) b)
  unfolding Holds ensure_schema_v2
  ensure_schema_v2-Holds b (there, waits) =
      let counted = Waits-counted r unsent b.outbox waits in ground arith

  open_buffer-Holds : (now : ℕ) (b : Buffer) → Holds r b → Holds r (kept_if (open_buffer now b) b)
  unfolding Holds ensure_schema_v2 open_buffer prune_sent
  open_buffer-Holds now b (there, waits) =
      let counted = Waits-counted r unsent b.outbox waits in
      ground (arith, Waits-prune r unsent b.outbox 7 now waits)

  assert_account-Holds :
      (account : String) (b : Buffer) → Holds r b → Holds r (kept_if (assert_account account b) b)
  unfolding Holds assert_account
  assert_account-Holds account b (there, waits) = ground arith

  append-Holds : (n : NewRow) (b : Buffer) → Holds r b → Holds r (kept_with (append n b) b)
  unfolding Holds append
  append-Holds n b (there, waits) =
      ground (arith, Waits-append r unsent b.outbox (outbox_row b.next_id n) waits)

  append_ack_if_absent-Holds :
      (id result : String) (account : Option String) (mode : Option Mode) (b : Buffer)
      → Holds r b
      → Holds r (append_ack_if_absent id result account mode b).1
  unfolding Holds append_ack_if_absent
  append_ack_if_absent-Holds id result account mode b (there, waits) = ground (
    arith,
    Waits-append r unsent b.outbox (outbox_row b.next_id (ack_of id result account mode)) waits,
  )

  record_execution-Holds :
      (id kind result : String) (account : Option String) (mode : Option Mode) (b : Buffer)
      → Holds r b
      → Holds r (kept_with (record_execution id kind result account mode b) b)
  unfolding Holds record_execution
  record_execution-Holds id kind result account mode b (there, waits) =
      let answered =
        append_ack_if_absent-Holds id result account mode (with_execution id kind result b)
          (there, waits) in
      elim (Option-cases (find? (by_command id) b.executions)) [
        | inl new ↦ rw (new, record_execution) answered
        | inr (e, old) ↦ rw (old, record_execution) (there, waits)
      ]

  buffer_call-Holds :
      (c : BufferCall) (b : Buffer)
      → confirms r.id c ≡ false
      → Holds r b
      → Holds r (buffer_call c b)
  unfolding Holds buffer_call mark_sent prune_sent write_sentinel clear_sentinel set_health_epoch
      ensure_cmd_ack_pending
  buffer_call-Holds (reopened now) b other h = open_buffer-Holds now b h
  buffer_call-Holds (claimed_for account) b other h = assert_account-Holds account b h
  buffer_call-Holds (appended row) b other h = append-Holds row b h
  buffer_call-Holds (confirmed id now) b other (there, waits) =
      (there, Waits-other r unsent b.outbox id now other waits)
  buffer_call-Holds (executed id kind result account mode) b other h =
      record_execution-Holds id kind result account mode b h
  buffer_call-Holds (answered_again id result account mode) b other h =
      append_ack_if_absent-Holds id result account mode b h
  buffer_call-Holds (pruned days now) b other (there, waits) =
      (there, Waits-prune r unsent b.outbox days now waits)
  buffer_call-Holds (failed epoch detail) b other h = h
  buffer_call-Holds (recovered epoch) b other h = h

-- Whether none of the calls confirms the row.
abbrev pub none_confirms : ℕ → List BufferCall → Bool
none_confirms id [] = true
none_confirms id (c ∷ cs) = not (confirms id c) && none_confirms id cs

-- A row of the outbox that is not sent stays there with its content, and not sent, through any
-- sequence of calls in which none confirms it: openings of the file with a change of its version,
-- changes of the account, prunings, failures and recoveries included.
pub buffer_calls-Holds :
    (r : OutboxRow) (cs : List BufferCall) (b : Buffer)
    → is_unsent r ≡ true
    → none_confirms r.id cs ≡ true
    → Holds r b
    → Holds r (buffer_calls cs b)
unfolding buffer_calls
buffer_calls-Holds r [] b unsent others h = h
buffer_calls-Holds r (c ∷ cs) b unsent others h =
    buffer_calls-Holds r cs (buffer_call c b) unsent (ground arith)
      (buffer_call-Holds r unsent c b (ground arith) h)
