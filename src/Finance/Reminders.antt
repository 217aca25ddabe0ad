-- ===== src/Finance/Reminders.antt =====
-- Who is reminded.
use backend_go_role_organiza.Prelude.{
  suc, some, String, ◌==◌, ◌≡◌, refl, sym, ap, ◌∙◌, Bool, true, false, ◌||◌, ◌&&◌, List, [], ◌∷◌,
  ◌++◌, map, All, any, member, select, arith, Bool-cases, inl, inr, eq_refl, eq_false_sym,
}
use backend_go_role_organiza.Finance.Domain.{FinanceInstallment}
use backend_go_role_organiza.Finance.Repository.{is_pending_or_overdue, find_pending_installments}
use backend_go_role_organiza.Finance.UseCases.{dispatch, remind_all, send_payment_reminders}
use backend_go_role_organiza.World.{
  World, Env, Result, ok, err, ◌>>=◌, either, raise, raise_if, driver, gets, modify, pure, context,
  wrap, uuid_binary, tick,
}

-- No text stands twice.
abbrev pub IsDistinct : List String → Type 0
IsDistinct [] = Unit
IsDistinct (s ∷ ss) = (member s ss ≡ false) × IsDistinct ss

All-imp :
    {A : Type 0} {P Q : A → Type 0} (xs : List A) → ((x : A) → P x → Q x) → All P xs → All Q xs
All-imp [] f h = tt
All-imp (x ∷ xs) f h = (f x h.0, All-imp xs f h.1)

All-not_member :
    (s : String) (ss : List String) → All (λ p. (p == s) ≡ false) ss → member s ss ≡ false
All-not_member s [] h = refl
All-not_member s (t ∷ ts) h = ground (arith, eq_false_sym t s h.0, All-not_member s ts h.1)

abbrev pub is_err : Result (Unit {0}) → Bool
is_err (ok tt) = false
is_err (err e) = true

All-of : {A : Type 0} {P : A → Type 0} (xs : List A) → ((x : A) → P x) → All P xs
All-of [] f = tt
All-of (x ∷ xs) f = (f x, All-of xs f)

-- What the reminders of the installments `is` do, those of the participants in `seen` being sent.
pub record IsReminding (event_id : String) (seen : List String) (is : List FinanceInstallment)
    (old : List (String × String)) (r : Result (Unit {0}) × World) : Type 0 where
  pub sent : List String
  pub added : r.1.reminders ≡ old ++ map (λ p. (event_id, p)) sent
  pub unseen : All (λ p. member p seen ≡ false) sent
  pub distinct : IsDistinct sent
  pub due : All (λ p. any (λ (i : FinanceInstallment). i.participant_id == p) is ≡ true) sent
  pub complete :
      All
        (λ (i : FinanceInstallment).
          (is_err r.0 || member i.participant_id seen || member i.participant_id sent) ≡ true)
        is

append-nil : {A : Type 0} (xs : List A) → xs ++ [] ≡ xs
append-nil [] = refl
append-nil (x ∷ xs) = ap (λ ys. x ∷ ys) (append-nil xs)

append_assoc : {A : Type 0} (xs ys zs : List A) → (xs ++ ys) ++ zs ≡ xs ++ (ys ++ zs)
append_assoc [] ys zs = refl
append_assoc (x ∷ xs) ys zs = ap (λ t. x ∷ t) (append_assoc xs ys zs)

abbrev due_of : String → World → List FinanceInstallment
due_of event_id w =
    select (λ i. i.event_id == event_id && is_pending_or_overdue i.status) w.finance_installments

module _ (env : Env) (event_id : String) where
  again :
      (seen : List String) (i : FinanceInstallment) (is : List FinanceInstallment)
      (old : List (String × String)) (r : Result (Unit {0}) × World)
      → member i.participant_id seen ≡ true
      → IsReminding event_id seen is old r
      → IsReminding event_id seen (i ∷ is) old r
  again seen i is old r m h = record {
    sent = h.sent;
    added = h.added;
    unseen = h.unseen;
    distinct = h.distinct;
    due = All-imp h.sent (λ p d. ground (arith, d)) h.due;
    complete = (ground (arith, m), h.complete);
  }

  nobody :
      (seen : List String) (is : List FinanceInstallment) (old : List (String × String))
      (r : Result (Unit {0}) × World)
      → r.1.reminders ≡ old
      → All
          (λ (i : FinanceInstallment). (is_err r.0 || member i.participant_id seen || false) ≡ true)
          is
      → IsReminding event_id seen is old r
  nobody seen is old r same c = record {
    sent = [];
    added = same ∙ sym (append-nil old);
    unseen = tt;
    distinct = tt;
    due = tt;
    complete = c;
  }

  first :
      (seen : List String) (i : FinanceInstallment) (is : List FinanceInstallment)
      (old : List (String × String)) (r : Result (Unit {0}) × World)
      → member i.participant_id seen ≡ false
      → IsReminding event_id
          (i.participant_id ∷ seen)
          is
          (old ++ (event_id, i.participant_id) ∷ [])
          r
      → IsReminding event_id seen (i ∷ is) old r
  first seen i is old r m h = record {
    sent = i.participant_id ∷ h.sent;
    added = h.added ∙ append_assoc old _ _;
    unseen = (m, All-imp h.sent (λ p d. ground (arith, d)) h.unseen);
    distinct = (
      All-not_member i.participant_id h.sent (All-imp h.sent (λ p d. ground (arith, d)) h.unseen),
      h.distinct,
    );
    due =
        (ground (arith, eq_refl i.participant_id), All-imp h.sent (λ p d. ground (arith, d)) h.due);
    complete = (
      ground (arith, eq_refl i.participant_id),
      All-imp is (λ j d. ground (arith, d)) h.complete,
    );
  }

  remind_all-reminds :
      (seen : List String) (is : List FinanceInstallment) (w : World)
      → IsReminding event_id seen is w.reminders (remind_all env true event_id seen is w)
  unfolding remind_all dispatch ◌>>=◌ either raise driver raise_if modify pure context wrap
  remind_all-reminds seen [] w = nobody seen [] w.reminders (ok tt, w) refl tt
  remind_all-reminds seen (i ∷ is) w = elim (Bool-cases (member i.participant_id seen)) [
    | inl met ↦ rw met (again seen i is w.reminders _ met (remind_all-reminds seen is w))
    | inr new ↦ rw new (elim (Bool-cases (env.fails w.calls)) [
      | inl down ↦
          rw down
            (nobody seen (i ∷ is) w.reminders (err _, tick w) refl (All-of (i ∷ is) (λ j. refl)))
      | inr up ↦ rw up (
          first seen i is w.reminders _ new (
            remind_all-reminds (i.participant_id ∷ seen) is
              (record (tick w) { reminders = w.reminders ++ (event_id, i.participant_id) ∷ [] })))
    ])
  ]

  remind_all-silent :
      (seen : List String) (is : List FinanceInstallment) (w : World)
      → remind_all env false event_id seen is w ≡ (ok tt, w)
  unfolding remind_all pure
  remind_all-silent seen [] w = refl
  remind_all-silent seen (i ∷ is) w = elim (Bool-cases (member i.participant_id seen)) [
    | inl met ↦ rw met (remind_all-silent seen is w)
    | inr new ↦ rw new (remind_all-silent (i.participant_id ∷ seen) is w)
  ]

-- For an event whose identifier is the canonical text of a UUID, and whatever calls fail: with a
-- dispatcher, sending the reminders adds one reminder for each of some participants, no participant
-- twice, and only for those with a pending or overdue installment of the event, and when it returns
-- without an error every participant with one is reminded; without a dispatcher, nobody is reminded,
-- and the call returns an error only where the query fails.
pub reminded_once :
    (env : Env) (event_id : String) (w : World)
    → env.parse_uuid event_id ≡ some event_id
    → let due =
        select
          (λ i. i.event_id == event_id && is_pending_or_overdue i.status)
          w.finance_installments in
      IsReminding event_id [] due w.reminders (send_payment_reminders env true event_id w)
      × ((send_payment_reminders env false event_id w).1.reminders ≡ w.reminders)
      × (is_err (send_payment_reminders env false event_id w).0 ≡ env.fails (suc w.calls))
unfolding send_payment_reminders find_pending_installments ◌>>=◌ either raise driver raise_if gets
    context wrap uuid_binary
reminded_once env event_id w canonical = rw canonical (elim (Bool-cases (env.fails (suc w.calls))) [
  | inl down ↦ rw down (
    nobody env event_id [] _ w.reminders (err _, tick (tick w)) refl (All-of _ (λ j. refl)),
    refl,
    refl,
  )
  | inr up ↦ rw up (
    remind_all-reminds env event_id [] _ (tick (tick w)),
    ap (λ r. r.1.reminders) (remind_all-silent env event_id [] (due_of event_id w) (tick (tick w))),
    ap (λ r. is_err r.0) (remind_all-silent env event_id [] (due_of event_id w) (tick (tick w))),
  )
])
