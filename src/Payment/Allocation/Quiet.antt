-- ===== src/Payment/Allocation/Quiet.antt =====
-- Marking installments paid and allocating them leaves the transactions alone.
use backend_go_role_organiza.Prelude.{ℕ, String, List, [], ◌∷◌, ℤ}
use backend_go_role_organiza.Payment.Domain.{PaymentInstallment}
use backend_go_role_organiza.World.{Env}
use backend_go_role_organiza.World.Within.{Within, Within-bind}
use backend_go_role_organiza.Payment.Transactions.Settled.{
  SameRecords, SameRecords-frame, quiet_rules,
}
use backend_go_role_organiza.Payment.Installments.{
  mark_paid_batch, find_by_ids, find_by_event_and_participant,
}
use backend_go_role_organiza.Payment.Allocation.{
  allocate, allocate_proportional, allocate_among, insert_one, insert_shares, documents, document,
}
use backend_go_role_organiza.Payment.Allocation.Shares.{Share}

module _ (env : Env) where
  pub mark_paid_batch-quiet :
      (ids : List String) (tx : String) (at : ℕ) (m r : String)
      → Within SameRecords (mark_paid_batch env ids tx at m r)
  unfolding mark_paid_batch
  mark_paid_batch-quiet ids tx at m r = search quiet_rules

  pub find_by_ids-quiet : (ids : List String) → Within SameRecords (find_by_ids env ids)
  unfolding find_by_ids
  find_by_ids-quiet ids = search quiet_rules

  document-quiet : (id : String) (s : Share) → Within SameRecords (document env id s)
  unfolding document
  document-quiet id s = search quiet_rules

  documents-quiet : (id : String) (ss : List Share) → Within SameRecords (documents env id ss)
  unfolding documents
  documents-quiet id [] = search quiet_rules
  documents-quiet id (s ∷ ss) =
      Within-bind SameRecords-frame _ _ (document-quiet id s)
        λ d. Within-bind SameRecords-frame _ _ (documents-quiet id ss) λ ds. search quiet_rules

  insert_shares-quiet :
      (what id : String) (ss : List Share) → Within SameRecords (insert_shares env what id ss)
  unfolding insert_shares
  insert_shares-quiet what id ss = search (quiet_rules, documents-quiet)

  insert_one-quiet : (id l : String) (a : ℤ) → Within SameRecords (insert_one env id l a)
  unfolding insert_one
  insert_one-quiet id l a = search insert_shares-quiet

  allocate_among-quiet :
      (i : PaymentInstallment) (ls : List PaymentInstallment)
      → Within SameRecords (allocate_among env i ls)
  unfolding allocate_among
  allocate_among-quiet i [] = search insert_one-quiet
  allocate_among-quiet i (l ∷ ls) = search (quiet_rules, insert_one-quiet, insert_shares-quiet)

  find_by_event_and_participant-quiet :
      (e p : String) → Within SameRecords (find_by_event_and_participant env e p)
  unfolding find_by_event_and_participant
  find_by_event_and_participant-quiet e p = search quiet_rules

  allocate_proportional-quiet :
      (i : PaymentInstallment) → Within SameRecords (allocate_proportional env i)
  unfolding allocate_proportional
  allocate_proportional-quiet i =
      search (quiet_rules, find_by_event_and_participant-quiet, allocate_among-quiet)

  pub allocate-quiet : (i : PaymentInstallment) → Within SameRecords (allocate env i)
  unfolding allocate
  allocate-quiet i = search (quiet_rules, insert_one-quiet, allocate_proportional-quiet) depth 9
