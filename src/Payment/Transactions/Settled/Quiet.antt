-- ===== src/Payment/Transactions/Settled/Quiet.antt =====
-- The calls that leave the transactions alone.
use backend_go_role_organiza.Prelude.{ℕ, String, ◌≡◌, refl, Bool, true, false, List, [], ◌∷◌}
use backend_go_role_organiza.ApiErr.{Error}
use backend_go_role_organiza.World.{World, Env, modify, insert_unique}
use backend_go_role_organiza.World.Within.{
  Within, IsFrame, within_rules, Within-bind, Within-driver, Within-gets, Within-when, Within-pure,
}
use backend_go_role_organiza.Payment.Transactions.Settled.Relation.{SameRecords, SameRecords-frame}

pub SameRecords-modify :
    (f : World → World)
    → ((w : World) → (f w).transactions ≡ w.transactions)
    → ((w : World) → (f w).webhook_events ≡ w.webhook_events)
    → ((w : World) → (f w).charges ≡ w.charges)
    → Within SameRecords (modify f)
unfolding modify
SameRecords-modify f t e c = record {
  at = λ w. record { same = t w; same_events = e w; same_charges = c w };
}

pub ruleset quiet_rules = (within_rules, SameRecords-frame, SameRecords-modify, refl)

-- An insert relates the worlds as its write does.
pub Within-insert_unique :
    {R : World → World → Type 0}
    → IsFrame R
    → (env : Env) (failure : String → Error) (clash : World → Bool) (add : World → World)
    → Within R (modify add)
    → Within R (insert_unique env failure clash add)
unfolding insert_unique
Within-insert_unique frame env failure clash add h =
    Within-bind frame _ _ (Within-driver frame env failure) λ _.
      Within-bind frame _ _ (Within-gets frame clash)
        λ taken. Within-bind frame _ _ (Within-when frame _ _ h) λ _. Within-pure frame _
