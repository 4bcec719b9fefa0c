-- ===== src/Broker/Inbox/Quarantine.antt =====
-- Dead letters of the inbox: what is quarantined for good.
use quanquant.Base.{
  ℕ, zero, suc, ◌≡◌, Bool, true, false, ◌&&◌, not, Option, none, some, [], ◌∷◌, arith,
  if◌then◌else◌, update_where, ◌==◌,
}
use quanquant.Broker.Inbox.{
  RawInbox, Rows, by_row_id, get_row, Reason, is_dead_letter, may_retry, quarantined,
  quarantine_raw_inbox, is_stale, freed, update_first, unquarantine_stale_raw_inbox, is_waiting,
}

pub get_row-id : (id : ℕ) (t : Rows) (r : RawInbox) → get_row id t ≡ some r → r.id ≡ id
unfolding get_row
get_row-id id [] r e = cc
get_row-id id (q ∷ t) r e = ground (arith, get_row-id id t r)

abbrev changed : (RawInbox → RawInbox) → Option RawInbox → Option RawInbox
changed f none = none
changed f (some r) = some (f r)

-- An update of one row by its id, read back.
pub get_row-update :
    (f : RawInbox → RawInbox) (id j : ℕ) (t : Rows)
    → ((r : RawInbox) → (f r).id ≡ r.id)
    → get_row j (update_where (by_row_id id) f t)
      ≡ (if id == j then changed f (get_row j t) else get_row j t)
unfolding get_row
get_row-update f id j [] h = ground arith
get_row-update f id j (r ∷ t) h = ground (arith, h r, get_row-update f id j t h)

-- A row that a dead-letter reason has settled.
abbrev pub is_dead : RawInbox → Bool
is_dead r = r.processed && (r.quarantine && not (may_retry r.quarantine_reason))

-- Freeing what may be retried reads every dead row back as it was.
pub update_first-dead :
    (n older_than : ℕ) (u : Option ℕ) (j : ℕ) (t : Rows) (r : RawInbox)
    → get_row j t ≡ some r
    → is_dead r ≡ true
    → get_row j (update_first n (is_stale older_than u) freed t) ≡ some r
unfolding get_row
update_first-dead zero older_than u j t r e h = e
update_first-dead (suc n) older_than u j [] r e h = e
update_first-dead (suc n) older_than u j (q ∷ t) r e h =
    ground
      (arith, update_first-dead n older_than u j t r, update_first-dead (suc n) older_than u j t r)

-- A row that a dead-letter reason quarantines is settled for good: no release of quarantined rows, of
-- any age and for any user, changes it, and it is not waiting.
pub quarantine_raw_inbox-dead :
    (id : ℕ) (reason : Reason) (now older_than limit : ℕ) (u : Option ℕ) (t : Rows) (r : RawInbox)
    → get_row id t ≡ some r
    → is_dead_letter reason ≡ true
    → (get_row id
          (unquarantine_stale_raw_inbox older_than limit u (quarantine_raw_inbox id reason now t)).1
        ≡ some (quarantined reason now r))
      × (is_waiting (quarantined reason now r) ≡ false)
unfolding unquarantine_stale_raw_inbox quarantine_raw_inbox
quarantine_raw_inbox-dead id reason now older_than limit u t r e h =
    let dead : is_dead (quarantined reason now r) ≡ true = ground arith in
    let keeps : (q : RawInbox) → (quarantined reason now q).id ≡ q.id = λ q. ground arith in
    let here : get_row id (update_where (by_row_id id) (quarantined reason now) t)
        ≡ some (quarantined reason now r) =
      ground (arith, get_row-update (quarantined reason now) id id t keeps) in
    (update_first-dead limit older_than u id _ (quarantined reason now r) here dead, ground arith)
