-- ===== src/Payment/Batch/Checks.antt =====
-- Steps 3 to 6b of internal/usecase/payment/process_batch_payment.go: what is refused before any
-- write.
use backend_go_role_organiza.Prelude.{
  String, ◌==◌, Bool, true, false, not, ◌&&◌, Option, none, some, List, [], ◌∷◌, ℤ, pos, add64,
  ltb_ℤ, any, member, is_set, join, if◌then◌else◌,
}
use backend_go_role_organiza.ApiErr.{Error, bad_request, forbidden}
use backend_go_role_organiza.Payment.Domain.{
  PaymentInstallment, InstallmentStatus, ProcessBatchPaymentInput,
}
use backend_go_role_organiza.Payment.Process.{needs_cpf}

-- `string(inst.Status)`
status_text : InstallmentStatus → String
status_text InstallmentStatus.pending = "PENDING"
status_text InstallmentStatus.processing = "PROCESSING"
status_text InstallmentStatus.paid = "PAID"
status_text InstallmentStatus.overdue = "OVERDUE"
status_text InstallmentStatus.cancelled = "CANCELLED"

-- PAID, PROCESSING and CANCELLED are refused.
abbrev pub is_payable : InstallmentStatus → Bool
is_payable InstallmentStatus.pending = true
is_payable InstallmentStatus.overdue = true
is_payable _ = false

-- The first requested identifier that was not found.
unfoldable pub first_missing : List String → List PaymentInstallment → Option String
first_missing [] is = none
first_missing (id ∷ ids) is = if any (λ i. i.id == id) is then first_missing ids is else some id

-- The user's own identifier and those of the user's participations.
abbrev pub is_owned : String → List String → PaymentInstallment → Bool
is_owned user participations i = member i.participant_id (user ∷ participations)

unfoldable pub first_foreign :
    String → List String → List PaymentInstallment → Option PaymentInstallment
first_foreign user participations [] = none
first_foreign user participations (i ∷ is) =
    if is_owned user participations i then first_foreign user participations is else some i

unfoldable pub first_unpayable : List PaymentInstallment → Option PaymentInstallment
first_unpayable [] = none
first_unpayable (i ∷ is) = if is_payable i.status then first_unpayable is else some i

unfoldable pub total_amount_cents : ℤ → List PaymentInstallment → ℤ
total_amount_cents acc [] = acc
total_amount_cents acc (i ∷ is) = total_amount_cents (add64 acc i.amount_cents) is

-- Steps 6 and 6b.
unfoldable pub refuse_total : ProcessBatchPaymentInput → ℤ → Option Error
refuse_total input total =
    if ltb_ℤ total (pos 100)
    then some (bad_request "valor total mínimo é R$1,00 (100 centavos)")
    else if needs_cpf input.method && not (is_set input.cpf)
    then some (bad_request "CPF é obrigatório para este método de pagamento")
    else none

unfoldable pub refuse_status :
    ProcessBatchPaymentInput → List PaymentInstallment → Option PaymentInstallment → Option Error
unfolding status_text
refuse_status input is (some i) = some (
    bad_request (
      join (
        "installment "
        ∷ i.id
        ∷ " possui status inválido para pagamento: "
        ∷ status_text i.status
        ∷ [])))
refuse_status input is none = refuse_total input (total_amount_cents (pos 0) is)

unfoldable pub refuse_owner :
    ProcessBatchPaymentInput → List PaymentInstallment → Option PaymentInstallment → Option Error
unfolding refuse_status
refuse_owner input is (some i) =
    some (forbidden (join ("installment não pertence ao usuário autenticado: " ∷ i.id ∷ [])))
refuse_owner input is none = refuse_status input is (first_unpayable is)

-- Steps 4 to 6b, once the participations are known.
unfoldable pub refusal :
    ProcessBatchPaymentInput → List String → List PaymentInstallment → Option Error
unfolding refuse_owner
refusal input participations is =
    refuse_owner input is (first_foreign input.user_id participations is)
