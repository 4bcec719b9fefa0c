-- ===== src/Broker/Inbox/Tests.antt =====
-- Runs of the inbox and of the bindings, and the theorems at them.
use quanquant.Base.{◌≡◌, refl, false, none, some, List, [], ◌∷◌, ◌==◌, ℕ, String, All}
use quanquant.Broker.Types.{real}
use quanquant.Broker.Samples.{order}
use quanquant.Broker.Inbox.{
  deal_report, RawInbox, Report, get_row, is_waiting, quarantined, user_mismatch, stage_raw_inbox,
  stage_scoped_raw_inbox, quarantine_raw_inbox, unquarantine_stale_raw_inbox, find_account_binding,
  bind_account, backfill_account_bindings, account_owned_by_other_user_in_orders,
  list_unprocessed_raw_inbox, Rows,
}
use quanquant.Broker.Inbox.Quarantine.{quarantine_raw_inbox-dead}
use quanquant.Broker.Inbox.Bindings.{owner_of, bind_all, bound_for_good}
use quanquant.Broker.Inbox.Backfill.{backfill_account_bindings-binds}

abbrev report_of_1 : Report
report_of_1 = record {
  kind = deal_report;
  broker = "shioaji";
  payload = "{}";
  user_id = some 1;
  account = some "A1";
  mode = some real;
}

-- A report in the name of user 1 for the account of user 2 is kept, and not listed.
list-stage_scoped :
    list_unprocessed_raw_inbox 10
      (some 1)
      (stage_scoped_raw_inbox report_of_1 5 (bind_account "shioaji" "A1" 2 []).1 [])
    ≡ []
unfolding list_unprocessed_raw_inbox stage_scoped_raw_inbox stage_raw_inbox bind_account
    find_account_binding quarantine_raw_inbox
list-stage_scoped = refl

abbrev one_row : Rows
one_row = (stage_raw_inbox report_of_1 5 []).1

abbrev row : RawInbox
row = (stage_raw_inbox report_of_1 5 []).0

quarantine_raw_inbox-dead_example :
    (get_row 1
        (unquarantine_stale_raw_inbox 900 200
          (some 1)
          (quarantine_raw_inbox 1 user_mismatch 6 one_row)).1
      ≡ some (quarantined user_mismatch 6 row))
    × (is_waiting (quarantined user_mismatch 6 row) ≡ false)
unfolding get_row stage_raw_inbox
quarantine_raw_inbox-dead_example =
    quarantine_raw_inbox-dead 1 user_mismatch 6 900 200 (some 1) one_row row refl refl

abbrev logins : List (String × String × ℕ)
logins = ("shioaji", "A1", 2) ∷ ("shioaji", "A2", 2) ∷ []

bound_for_good_example :
    (bind_account "shioaji" "A1" 2 (bind_all logins (bind_account "shioaji" "A1" 1 []).1)).0
    ≡ (1 == 2)
unfolding bind_account find_account_binding
bound_for_good_example = bound_for_good "shioaji" "A1" 1 logins 2 [] refl

-- The orders of two users on one account stop the backfill; those of one user bind it.
backfill-conflict :
    backfill_account_bindings (order ∷ record order { id = 2; user_id = 9 } ∷ []) [] ≡ none
unfolding backfill_account_bindings account_owned_by_other_user_in_orders
backfill-conflict = refl

backfill-one_owner :
    backfill_account_bindings (order ∷ record order { id = 2 } ∷ []) []
    ≡ some (record { broker = "shioaji"; account = "A1"; user_id = 1 } ∷ [])
unfolding backfill_account_bindings account_owned_by_other_user_in_orders bind_account
    find_account_binding
backfill-one_owner = refl

backfill_account_bindings-binds_example :
    All
      (λ o.
        owner_of o.broker o.account
          (record { broker = "shioaji"; account = "A1"; user_id = 1 } ∷ [])
        ≡ some o.user_id)
      (order ∷ record order { id = 2 } ∷ [])
backfill_account_bindings-binds_example =
    backfill_account_bindings-binds (order ∷ record order { id = 2 } ∷ []) []
      (record { broker = "shioaji"; account = "A1"; user_id = 1 } ∷ []) backfill-one_owner
