-- ===== src/Finance/UseCases/Status.antt =====
-- Payment statuses, and the reminders of internal/usecase/finance/finance.go.
use backend_go_role_organiza.Prelude.{
  ℕ, suc, String, ◌==◌, Bool, true, false, not, ◌&&◌, ◌||◌, List, [], ◌∷◌, ◌++◌, ℤ, pos, add64,
  member, join, if◌then◌else◌,
}
use backend_go_role_organiza.ApiErr.{plain}
use backend_go_role_organiza.Finance.Domain.{
  Participant, FinanceInstallment, ParticipantPaymentStatus, EventPaymentStatus,
}
use backend_go_role_organiza.Finance.Repository.{
  find_participants, find_event_installments, find_participant_installments,
  find_pending_installments,
}
use backend_go_role_organiza.Finance.UseCases.Reports.{or_empty, sum_with, clamp_size, clamp_page}
use backend_go_role_organiza.World.{
  Env, Action, pure, modify, attempt, context, ◌>>=◌, ◌>>◌, driver,
}

-- Whether an installment is overdue.
unfoldable pub has_overdue : List FinanceInstallment → Bool
has_overdue [] = false
has_overdue (i ∷ is) = (i.status == "OVERDUE") || has_overdue is

abbrev pub is_open_status : String → Bool
is_open_status s = (s == "PENDING") || (s == "OVERDUE")

unfoldable pub has_open : List FinanceInstallment → Bool
has_open [] = false
has_open (i ∷ is) = is_open_status i.status || has_open is

-- The amounts of the installments that are pending or overdue.
unfoldable pub sum_open : ℤ → List FinanceInstallment → ℤ
sum_open total [] = total
sum_open total (i ∷ is) =
    sum_open (if is_open_status i.status then add64 total i.amount else total) is

abbrev pub is_none : List FinanceInstallment → Bool
is_none [] = true
is_none (i ∷ is) = false

unfoldable pub participant_status : List FinanceInstallment → String
unfolding has_overdue has_open
participant_status is =
    if has_overdue is
    then "OVERDUE"
    else if not (is_none is) && not (has_open is)
    then "PAID"
    else "PENDING"

unfoldable pub status_of : Participant → List FinanceInstallment → ParticipantPaymentStatus
unfolding participant_status sum_with sum_open
status_of p is = record {
  participant_id = p.id;
  name = p.name;
  email = p.email;
  status = participant_status is;
  paid_amount = sum_with "PAID" (pos 0) is;
  pending_amount = sum_open (pos 0) is;
}

unfoldable pub count_paid : EventPaymentStatus → FinanceInstallment → EventPaymentStatus
count_paid s i =
    if i.status == "PAID"
    then record s { total_paid = add64 s.total_paid i.amount; paid_count = suc s.paid_count }
    else if i.status == "PENDING"
    then record s {
      total_pending = add64 s.total_pending i.amount;
      pending_count = suc s.pending_count;
    }
    else if i.status == "OVERDUE"
    then record s {
      total_overdue = add64 s.total_overdue i.amount;
      pending_count = suc s.pending_count;
    }
    else s

unfoldable pub count_all : EventPaymentStatus → List FinanceInstallment → EventPaymentStatus
unfolding count_paid
count_all s [] = s
count_all s (i ∷ is) = count_all (count_paid s i) is

unfoldable pub no_payment : String → EventPaymentStatus
no_payment event_id = record {
  event_id = event_id;
  total_paid = pos 0;
  total_pending = pos 0;
  total_overdue = pos 0;
  paid_count = 0;
  pending_count = 0;
}

module _ (env : Env) where
  unfoldable pub status_all : String → List Participant → Action (List ParticipantPaymentStatus)
  unfolding find_participant_installments status_of
  status_all event_id [] = pure []
  status_all event_id (p ∷ ps) = do
    found ← attempt (find_participant_installments env event_id p.id)
    rest ← status_all event_id ps
    pure (status_of p (or_empty found) ∷ rest)

  unfoldable pub get_participants_status :
      String → ℤ → ℤ → Action (List ParticipantPaymentStatus × ℕ)
  unfolding find_participants status_all clamp_size
  get_participants_status event_id page size = do
    found ←
        context "buscar participantes"
          (find_participants env event_id (clamp_page page) (clamp_size size))
    statuses ← status_all event_id found.0
    pure (statuses, found.1)

  unfoldable pub get_event_payment_status : String → Action EventPaymentStatus
  unfolding find_event_installments count_all no_payment
  get_event_payment_status event_id = do
    found ← context "buscar parcelas" (find_event_installments env event_id)
    pure (count_all (no_payment event_id) found)

  -- `PaymentReminderDispatcher.Dispatch`
  unfoldable pub dispatch : String → String → Action (Unit {0})
  dispatch event_id participant_id = do
    driver env plain
    modify λ w. record w { reminders = w.reminders ++ (event_id, participant_id) ∷ [] }

  -- `dispatches` is whether a dispatcher is given; `seen` are the participants reminded so far.
  unfoldable pub remind_all :
      Bool → String → List String → List FinanceInstallment → Action (Unit {0})
  unfolding dispatch
  remind_all dispatches event_id seen [] = pure tt
  remind_all dispatches event_id seen (i ∷ is) =
      let again = remind_all dispatches event_id seen is in
      let rest = remind_all dispatches event_id (i.participant_id ∷ seen) is in
      if member i.participant_id seen then again else if not dispatches then rest else do
        context (join ("enviar lembrete para participante " ∷ i.participant_id ∷ []))
            (dispatch event_id i.participant_id)
        rest

  unfoldable pub send_payment_reminders : Bool → String → Action (Unit {0})
  unfolding find_pending_installments remind_all
  send_payment_reminders dispatches event_id = do
    pending ← context "buscar parcelas pendentes" (find_pending_installments env event_id)
    remind_all dispatches event_id [] pending
