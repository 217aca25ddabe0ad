-- ===== src/Payment/Installments/Cancelled.antt =====
-- What `CancelByParticipant` leaves.
use backend_go_role_organiza.Prelude.{
  ℕ, suc, String, ◌==◌, ◌&&◌, Bool, not, ◌≡◌, refl, ap, true, false, List, [], ◌∷◌, length, select,
  update_where, arith, Bool-cases, inl, inr,
}
use backend_go_role_organiza.Payment.Domain.{
  PaymentInstallment, InstallmentStatus, is_paid, is_open,
}
use backend_go_role_organiza.World.{
  World, Env, ok, ◌>>=◌, time_now, driver, raise_if, gets, modify, pure, either,
}
use backend_go_role_organiza.Payment.Installments.{
  is_cancellable, mark_cancelled, cancel_by_participant,
}

-- The installments after the cancellation.
abbrev after_cancel : String → String → ℕ → List PaymentInstallment → List PaymentInstallment
after_cancel event participant now =
    update_where (is_cancellable event participant) (mark_cancelled now)

open_not_paid : (s : InstallmentStatus) → is_open s ≡ true → is_paid s ≡ false
open_not_paid InstallmentStatus.pending e = refl
open_not_paid InstallmentStatus.overdue e = refl
open_not_paid InstallmentStatus.processing e = refl
open_not_paid InstallmentStatus.cancelled e = refl
open_not_paid InstallmentStatus.paid e = cc

module _ (event participant : String) (now : ℕ) where
  open_of_hit :
      (i : PaymentInstallment) → is_cancellable event participant i ≡ true → is_open i.status ≡ true
  open_of_hit i hit = ground (arith, hit)

  paid_kept :
      (is : List PaymentInstallment)
      → select (λ i. is_paid i.status) (after_cancel event participant now is)
        ≡ select (λ i. is_paid i.status) is
  unfolding mark_cancelled
  paid_kept [] = refl
  paid_kept (i ∷ is) = elim (Bool-cases (is_cancellable event participant i)) [
    | inl hit ↦ rw hit (rw (open_not_paid i.status (open_of_hit i hit)) (paid_kept is))
    | inr miss ↦ rw miss (elim (Bool-cases (is_paid i.status)) [
      | inl paid ↦ rw paid (ap (λ xs. i ∷ xs) (paid_kept is))
      | inr due ↦ rw due (paid_kept is)
    ])
  ]

-- An installment of the participant in the event.
abbrev pub belongs : String → String → PaymentInstallment → Bool
belongs event participant i = i.event_id == event && i.participant_id == participant

abbrev pub is_open_one : String → String → PaymentInstallment → Bool
is_open_one event participant i = belongs event participant i && is_open i.status

module _ (event participant : String) (now : ℕ) where
  others_kept :
      (is : List PaymentInstallment)
      → select (λ i. not (belongs event participant i)) (after_cancel event participant now is)
        ≡ select (λ i. not (belongs event participant i)) is
  unfolding mark_cancelled
  others_kept [] = refl
  others_kept (i ∷ is) = ground (arith, others_kept is)

  own_closed :
      (is : List PaymentInstallment)
      → select (is_open_one event participant) (after_cancel event participant now is) ≡ []
  unfolding mark_cancelled
  own_closed [] = refl
  own_closed (i ∷ is) = ground (arith, own_closed is)

  same_count :
      (is : List PaymentInstallment)
      → length (select (is_cancellable event participant) is)
        ≡ length (select (is_open_one event participant) is)
  same_count [] = refl
  same_count (i ∷ is) = ground (arith, same_count is)

-- With a database that answers, the cancellation of a participant's installments in an event reports
-- how many it found open, leaves none of them open, keeps every paid installment, and keeps every
-- installment of another participant or event as it is.
pub cancel_by_participant_lem :
    (env : Env) (event participant : String) (w : World)
    → env.fails (suc w.calls) ≡ false
    → let (r, w') = cancel_by_participant env event participant w in
      (r ≡ ok (length (select (is_open_one event participant) w.installments)))
      × (select (is_open_one event participant) w'.installments ≡ [])
      × (select (λ i. is_paid i.status) w'.installments
          ≡ select (λ i. is_paid i.status) w.installments)
      × (select (λ i. not (belongs event participant i)) w'.installments
          ≡ select (λ i. not (belongs event participant i)) w.installments)
unfolding cancel_by_participant ◌>>=◌ time_now driver raise_if gets modify pure either
cancel_by_participant_lem env event participant w up = rw up (
  ap ok (same_count event participant (env.now w.calls) w.installments),
  own_closed event participant (env.now w.calls) w.installments,
  paid_kept event participant (env.now w.calls) w.installments,
  others_kept event participant (env.now w.calls) w.installments,
)
