-- ===== src/Finance/Repository/Records.antt =====
-- Summaries, statements, the audit trail, participants and installments.
use backend_go_role_organiza.Prelude.{
  ℕ, String, ◌==◌, Bool, true, not, ◌&&◌, ◌||◌, Option, none, some, List, [], ◌∷◌, ◌++◌, ℤ, pos,
  mul64, sub64, pos_part, find, any, eqb, leb, ltb, length, select, take, drop, update_first,
  sort_by, join, if◌then◌else◌,
}
use backend_go_role_organiza.ApiErr.{internal, not_found}
use backend_go_role_organiza.Finance.Domain.{
  FinanceSummary, Participant, FinanceInstallment, StatementEntry, AuditEntry,
}
use backend_go_role_organiza.World.{
  World, Env, Action, Result, ok, err, pure, gets, modify, or_raise, attempt, ◌>>=◌, ◌>>◌, raise_if,
  time_now, new_object_id, uuid_binary, driver,
}

abbrev pub after_from : Option ℕ → ℕ → Bool
after_from none t = true
after_from (some from) t = leb from t

abbrev pub before_to : Option ℕ → ℕ → Bool
before_to none t = true
before_to (some to) t = leb t to

abbrev pub of_type : Option String → String → Bool
of_type none s = true
of_type (some t) s = s == t

-- The filter of a statement.
abbrev pub in_statement : String → Option String → Option ℕ → Option ℕ → StatementEntry → Bool
in_statement event_id entry_type from to e =
    e.event_id == event_id
    && of_type entry_type e.entry_type
    && after_from from e.occurred_at
    && before_to to e.occurred_at

abbrev pub is_pending_or_overdue : String → Bool
is_pending_or_overdue s = s == "PENDING" || s == "OVERDUE"

-- An empty list where the query fails.
abbrev pub page_or_empty : {A : Type 0} → Result (List A × ℕ) → List A × ℕ
page_or_empty (ok p) = p
page_or_empty (err e) = ([], 0)

module _ (env : Env) where
  -- `Find` with `skip` and `limit`: the server may refuse the skip.
  unfoldable pub find_page : {A : Type 0} → ℤ → ℕ → (World → List A) → Action (List A)
  find_page skip size rows = do
    driver env internal
    raise_if (env.refuses_skip skip) (internal "skip value must be non-negative")
    gets λ w. take size (drop (pos_part skip) (rows w))

  unfoldable pub find_summary : String → Action FinanceSummary
  find_summary event_id = do
    event ← uuid_binary env event_id
    driver env internal
    found ← gets (λ w. find (λ s. s.event_id == event) w.finance_summaries)
    or_raise found (not_found "finance_summary" event_id)

  unfoldable pub save_summary : FinanceSummary → Action FinanceSummary
  save_summary s = do
    id ← new_object_id env
    now ← time_now env
    event ← uuid_binary env s.event_id
    driver env (λ reason. internal (join ("saving finance_summary: " ∷ reason ∷ [])))
    modify λ w. record w {
      finance_summaries =
          w.finance_summaries
          ++ record s {
            id = id;
            event_id = event;
            last_calculated_at = if eqb s.last_calculated_at 0 then now else s.last_calculated_at;
          }
            ∷ [];
    }
    pure (record s { id = id })

  -- The pending withdrawals are not among the fields that `$set` writes.
  unfoldable pub update_summary : FinanceSummary → Action FinanceSummary
  update_summary s = do
    now ← time_now env
    driver env internal
    found ← gets (λ w. any (λ x. x.id == s.id) w.finance_summaries)
    raise_if (not found) (not_found "finance_summary" s.id)
    modify λ w. record w {
      finance_summaries =
          update_first (λ x. x.id == s.id)
            (λ x. record x {
              goal = s.goal;
              collected = s.collected;
              progress_percentage = s.progress_percentage;
              available_for_withdrawal = s.available_for_withdrawal;
              last_calculated_at = now;
            })
            w.finance_summaries;
    }
    pure (record s { last_calculated_at = now })

  -- `skip := int64((page - 1) * size)`, in 64-bit arithmetic.
  unfoldable pub find_statement :
      String → Option String → Option ℕ → Option ℕ → ℕ → ℕ → Action (List StatementEntry × ℕ)
  unfolding find_page sort_by
  find_statement event_id entry_type from to page size = do
    event ← uuid_binary env event_id
    driver env internal
    let matching : World → List StatementEntry =
        λ w. select (in_statement event entry_type from to) w.statement_entries
    total ← gets (λ w. length (matching w))
    entries ←
        find_page (mul64 (sub64 (pos page) (pos 1)) (pos size)) size
          λ w. sort_by (λ y x. ltb x.occurred_at y.occurred_at) (matching w)
    pure (entries, total)

  unfoldable pub count_and_find_audit : String → ℕ → ℕ → Action (List AuditEntry × ℕ)
  unfolding find_page sort_by
  count_and_find_audit event_id page size = do
    event ← uuid_binary env event_id
    driver env internal
    let matching : World → List AuditEntry = λ w. select (λ e. e.event_id == event) w.audit_trail
    total ← gets (λ w. length (matching w))
    entries ←
        find_page (mul64 (pos page) (pos size)) size
          λ w. sort_by (λ y x. ltb x.occurred_at y.occurred_at) (matching w)
    pure (entries, total)

  -- An error of the database reads as an empty trail.
  unfoldable pub find_audit_trail : String → ℕ → ℕ → Action (List AuditEntry × ℕ)
  unfolding count_and_find_audit
  find_audit_trail event_id page size = do
    answer ← attempt (count_and_find_audit event_id page size)
    pure (page_or_empty answer)

  unfoldable pub find_participations : String → Action (List Participant)
  find_participations user_id = do
    driver env internal
    gets λ w. select (λ p. p.user_id == user_id) w.participants

  unfoldable pub find_participants : String → ℕ → ℕ → Action (List Participant × ℕ)
  unfolding find_page
  find_participants event_id page size = do
    event ← uuid_binary env event_id
    driver env internal
    let matching : World → List Participant = λ w. select (λ p. p.event_id == event) w.participants
    total ← gets (λ w. length (matching w))
    rows ← find_page (mul64 (pos page) (pos size)) size matching
    pure (rows, total)

  unfoldable pub find_participant : String → String → Action Participant
  find_participant event_id user_id = do
    event ← uuid_binary env event_id
    driver env internal
    found ← gets (λ w. find (λ p. p.event_id == event && p.user_id == user_id) w.participants)
    or_raise found (not_found "participant" user_id)

  unfoldable pub find_event_installments : String → Action (List FinanceInstallment)
  find_event_installments event_id = do
    event ← uuid_binary env event_id
    driver env internal
    gets λ w. select (λ i. i.event_id == event) w.finance_installments

  unfoldable pub find_participant_installments : String → String → Action (List FinanceInstallment)
  find_participant_installments event_id participant_id = do
    event ← uuid_binary env event_id
    participant ← uuid_binary env participant_id
    driver env internal
    gets λ w.
        select (λ i. i.event_id == event && i.participant_id == participant) w.finance_installments

  unfoldable pub find_pending_installments : String → Action (List FinanceInstallment)
  find_pending_installments event_id = do
    event ← uuid_binary env event_id
    driver env internal
    gets λ w.
        select (λ i. i.event_id == event && is_pending_or_overdue i.status) w.finance_installments
