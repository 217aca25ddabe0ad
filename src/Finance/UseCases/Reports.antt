-- ===== src/Finance/UseCases/Reports.antt =====
-- Overviews, statements and the summary of internal/usecase/finance/finance.go.
use backend_go_role_organiza.Prelude.{
  ℕ, String, ◌==◌, Bool, true, false, not, ◌&&◌, ◌||◌, Option, none, some, List, [], ◌∷◌, map, ℤ,
  pos, ltb, leb, eqb, pos_part, add64, sub64, sort_by, upper_text, trim_space, if◌then◌else◌,
}
use backend_go_role_organiza.ApiErr.{forbidden}
use backend_go_role_organiza.Event.Domain.{Evento}
use backend_go_role_organiza.Event.Eventos.{find_evento}
use backend_go_role_organiza.Rateio.Domain.{Rateio, StatusRateio}
use backend_go_role_organiza.Rateio.Repository.{find_rateios_of_evento}
use backend_go_role_organiza.Finance.Domain.{
  FinanceSummary, Participant, FinanceInstallment, AuditEntry, FinanceOverview, LedgerStatementPage,
}
use backend_go_role_organiza.Finance.Rules.{calculate_progress}
use backend_go_role_organiza.Finance.Repository.{
  find_summary, save_summary, update_summary, find_statement, find_audit_trail, find_participations,
  find_participant, find_event_installments,
}
use backend_go_role_organiza.World.{
  Env, FloatOps, Action, Result, ok, err, pure, raise, attempt, context, either, ◌>>=◌, ◌>>◌,
  time_now,
}

-- An error reads as an empty list.
abbrev pub or_empty : {A : Type 0} → Result (List A) → List A
or_empty (ok xs) = xs
or_empty (err e) = []

abbrev pub is_aberto : StatusRateio → Bool
is_aberto StatusRateio.aberto = true
is_aberto StatusRateio.fechado = false

-- The goal: the totals of the open splits, in cents.
unfoldable pub goal_of : FloatOps → ℤ → List Rateio → ℤ
goal_of floats goal [] = goal
goal_of floats goal (r ∷ rs) =
    goal_of floats
      (if is_aberto r.status
        then add64 goal (floats.to_int64 (floats.mul r.valor_total (floats.of_int64 (pos 100))))
        else goal)
      rs

-- The amounts of the installments with the status.
unfoldable pub sum_with : String → ℤ → List FinanceInstallment → ℤ
sum_with status total [] = total
sum_with status total (i ∷ is) =
    sum_with status (if i.status == status then add64 total i.amount else total) is

-- `max(0, a)`
abbrev pub at_least_0 : ℤ → ℤ
at_least_0 a = pos (pos_part a)

-- `max(1, min(100, size))`
unfoldable pub clamp_size : ℤ → ℕ
clamp_size size =
    if leb (pos_part size) 1 then 1 else if ltb 100 (pos_part size) then 100 else pos_part size

-- `max(0, page)`
abbrev pub clamp_page : ℤ → ℕ
clamp_page page = pos_part page

abbrev pub collected_of : Result FinanceSummary → ℤ
collected_of (ok s) = s.collected
collected_of (err e) = pos 0

abbrev pub available_of : Result FinanceSummary → ℤ
available_of (ok s) = s.available_for_withdrawal
available_of (err e) = pos 0

abbrev pub pending_of : Result FinanceSummary → ℤ
pending_of (ok s) = s.pending_withdrawals
pending_of (err e) = pos 0

-- The type of an entry that a statement is filtered by: none for "all" and for no type.
unfoldable pub entry_type : String → Option String
unfolding upper_text trim_space
entry_type s =
    let t = upper_text (trim_space s) in if (t == "") || (t == "ALL") then none else some t

unfoldable pub total_pages : FloatOps → ℕ → ℕ → ℤ
total_pages floats total size =
    if eqb total 0
    then pos 0
    else floats.to_int64
        (floats.ceil (floats.div (floats.of_int64 (pos total)) (floats.of_int64 (pos size))))

pub record GetLedgerStatementInput : Type 0 where
  pub event_id : String
  pub user_id : String
  pub entry_type : String
  pub from : Option ℕ
  pub to : Option ℕ
  pub page : ℤ
  pub size : ℤ

-- A participation that is still being organised or accepted is left out.
abbrev pub is_listed : Participant → Bool
is_listed p = not (p.status == "ORGANIZACAO") && not (p.status == "AGUARDANDO_ACEITE")

abbrev pub listed_overview :
    FloatOps → String → Evento → ℤ → Result FinanceSummary → Result FinanceSummary → FinanceOverview
unfolding calculate_progress
listed_overview floats event_id evt goal summary again = record {
  event_id = event_id;
  event_name = evt.nome;
  goal = goal;
  collected = collected_of summary;
  progress_percentage = calculate_progress floats (collected_of summary) goal;
  available_for_withdrawal = available_of again;
  pending_withdrawals = pending_of again;
}

module _ (env : Env) where
  unfoldable pub find_goal : String → Action ℤ
  unfolding find_rateios_of_evento goal_of
  find_goal event_id = do
    rateios ← attempt (find_rateios_of_evento env event_id)
    pure (goal_of env.floats (pos 0) (or_empty rateios))

  -- The overview and the event's date.
  unfoldable pub list_one : String → Evento → Action (FinanceOverview × ℕ)
  unfolding find_goal find_summary
  list_one event_id evt = do
    goal ← find_goal event_id
    summary ← attempt (find_summary env event_id)
    again ← attempt (find_summary env event_id)
    pure (listed_overview env.floats event_id evt goal summary again, evt.data_evento)

  -- An event that cannot be read is left out without an error.
  unfoldable pub list_found :
      String
      → Result Evento
      → Action (List (FinanceOverview × ℕ))
      → Action (List (FinanceOverview × ℕ))
  unfolding list_one
  list_found event_id (err e) rest = rest
  list_found event_id (ok evt) rest = do
    entry ← list_one event_id evt
    entries ← rest
    pure (entry ∷ entries)

  unfoldable pub list_all : List Participant → Action (List (FinanceOverview × ℕ))
  unfolding list_found find_evento
  list_all [] = pure []
  list_all (p ∷ ps) =
      let rest = list_all ps in
      if is_listed p
      then attempt (find_evento env p.event_id) >>= (λ found. list_found p.event_id found rest)
      else rest

  unfoldable pub list_finance_events : String → Action (List FinanceOverview)
  unfolding list_all find_participations sort_by
  list_finance_events user_id = do
    participations ← context "buscar participações do usuário" (find_participations env user_id)
    entries ← list_all participations
    pure (map (λ p. p.0) (sort_by (λ y x. ltb x.1 y.1) entries))

  -- The check of the participant, whose every error reads as a refusal.
  unfoldable pub require_participant : String → String → String → Action (Unit {0})
  unfolding find_participant
  require_participant message event_id user_id = do
    found ← attempt (find_participant env event_id user_id)
    either found (λ p. pure tt) (λ e. raise (forbidden message))

  unfoldable pub get_finance_overview : String → String → Action FinanceOverview
  unfolding require_participant find_evento find_goal find_summary calculate_progress
  get_finance_overview event_id user_id = do
    require_participant "acesso negado ao overview financeiro do evento" event_id user_id
    evt ← context "buscar evento" (find_evento env event_id)
    goal ← find_goal event_id
    summary ← attempt (find_summary env event_id)
    pure (record {
      event_id = event_id;
      event_name = evt.nome;
      goal = goal;
      collected = collected_of summary;
      progress_percentage = calculate_progress env.floats (collected_of summary) goal;
      available_for_withdrawal = at_least_0 (sub64 (collected_of summary) (pending_of summary));
      pending_withdrawals = pending_of summary;
    })

  unfoldable pub get_ledger_statement : GetLedgerStatementInput → Action LedgerStatementPage
  unfolding require_participant find_statement entry_type clamp_size total_pages
  get_ledger_statement input = do
    require_participant "acesso negado ao extrato do evento" input.event_id input.user_id
    found ← context "buscar extrato do evento" (
        find_statement env input.event_id (entry_type input.entry_type) input.from input.to
          (clamp_page input.page) (clamp_size input.size))
    pure (record {
      entries = found.0;
      total_elements = found.1;
      total_pages = total_pages env.floats found.1 (clamp_size input.size);
      page = clamp_page input.page;
      size = clamp_size input.size;
    })

  abbrev new_summary : String → ℤ → ℤ → ℕ → FinanceSummary
  unfolding calculate_progress
  new_summary event_id goal collected now = record {
    id = "";
    event_id = event_id;
    goal = goal;
    collected = collected;
    progress_percentage = calculate_progress env.floats collected goal;
    available_for_withdrawal = pos 0;
    pending_withdrawals = pos 0;
    last_calculated_at = now;
  }

  abbrev recalculated : FinanceSummary → ℤ → ℤ → ℕ → FinanceSummary
  unfolding calculate_progress
  recalculated s goal collected now = record s {
    goal = goal;
    collected = collected;
    progress_percentage = calculate_progress env.floats collected goal;
    last_calculated_at = now;
  }

  unfoldable pub recalculate_finance_summary : String → Action FinanceSummary
  unfolding find_goal find_event_installments sum_with find_summary save_summary update_summary
      new_summary recalculated
  recalculate_finance_summary event_id = do
    goal ← find_goal event_id
    installments ← attempt (find_event_installments env event_id)
    let collected : ℤ = sum_with "PAID" (pos 0) (or_empty installments)
    now ← time_now env
    existing ← attempt (find_summary env event_id)
    either existing
        (λ s.
          context "atualizar finance summary"
            (update_summary env (recalculated s goal collected now)))
        (λ e.
          context "salvar finance summary"
            (save_summary env (new_summary event_id goal collected now)))

  unfoldable pub get_audit_trail : String → ℤ → ℤ → Action (List AuditEntry × ℕ)
  unfolding find_audit_trail clamp_size
  get_audit_trail event_id page size =
      context "buscar audit trail"
        (find_audit_trail env event_id (clamp_page page) (clamp_size size))
