-- ===== src/Finance/Default.antt =====
-- One default account for each user.
use backend_go_role_organiza.Prelude.{
  ℕ, String, ◌==◌, ◌≡◌, refl, ap, ◌∙◌, Bool, true, false, not, ◌&&◌, Option, none, some, List, [],
  ◌∷◌, find, any, update_first, update_where, arith, Bool-cases, Option-cases, subst, eq_iff, inl,
  inr, find_sound, find-any, find-update_first,
}
use backend_go_role_organiza.ApiErr.{Error}
use backend_go_role_organiza.Finance.Domain.{PaymentAccount}
use backend_go_role_organiza.Finance.Repository.{
  is_account, is_of_user, set_account, find_account, update_account, clear_default,
}
use backend_go_role_organiza.Finance.UseCases.{set_default}
use backend_go_role_organiza.World.{
  World, Env, ok, ◌>>=◌, either, raise, raise_if, driver, gets, modify, or_raise, pure, tick,
  time_now,
}
use backend_go_role_organiza.World.Inversion.{ok_inj, context-eq-ok}
use backend_go_role_organiza.World.Leaves.{Takes, Takes-bind, Takes-return, Takes-context}

-- A default account of the user that is not the chosen one.
abbrev pub is_other_default : String → String → PaymentAccount → Bool
is_other_default id user a = is_of_user user a && a.is_default && not (a.id == id)

-- The chosen account is the only default one of its user, if any is.
abbrev pub has_other_default : String → String → World → Bool
has_other_default id user w = any (is_other_default id user) w.payment_accounts

cleared :
    (id user : String) (as' : List PaymentAccount)
    → any
        (is_other_default id user)
        (update_where (is_of_user user) (λ a. record a { is_default = false }) as')
      ≡ false
cleared id user [] = refl
cleared id user (a ∷ as') = ground (arith, cleared id user as')

-- Writing the chosen account makes no other account a default one.
others_kept :
    (id user : String) (a : PaymentAccount) (now : ℕ) (as' : List PaymentAccount)
    → any (is_other_default id user) as' ≡ false
    → any (is_other_default id user) (update_first (is_account id user) (set_account a now) as')
      ≡ false
unfolding set_account
others_kept id user a now [] h = refl
others_kept id user a now (b ∷ bs) h = ground (arith, h, others_kept id user a now bs)

abbrev pub NoOther : String → String → World → Type 0
NoOther id user w = has_other_default id user w ≡ false

-- The chosen account is a default one and its user has no other.
IsOnlyDefault : String → String → World → Type 0
IsOnlyDefault id user w =
    (has_other_default id user w ≡ false)
    × ((a : PaymentAccount) × (find (is_account id user) w.payment_accounts ≡ some a)
        × (a.is_default ≡ true))

module _ (env : Env) where
  clear_default-clears :
      (id user : String) → Takes (λ w. Unit) (NoOther id user) (clear_default env user)
  unfolding clear_default ◌>>=◌ either raise driver raise_if modify
  clear_default-clears id user = record {
    after = λ w t a. elim (Bool-cases (env.fails w.calls)) [
      | inl down ↦ rw down (λ e. absurd (ground (arith, e)))
      | inr up ↦ rw up (λ e. cleared id user w.payment_accounts)
    ];
  }

  or_raise-same :
      (o : Option PaymentAccount) (e : Error) (w : World)
      → (or_raise o e w).1.payment_accounts ≡ w.payment_accounts
  unfolding or_raise
  or_raise-same none e w = refl
  or_raise-same (some a) e w = refl

  find_account-same :
      (id user : String) (w : World)
      → (find_account env id user w).1.payment_accounts ≡ w.payment_accounts
  unfolding find_account ◌>>=◌ either raise driver raise_if gets
  find_account-same id user w = elim (Bool-cases (env.fails w.calls)) [
    | inl down ↦ rw down refl
    | inr up ↦ rw up (or_raise-same _ _ (tick w))
  ]

  find_account-key :
      (id user : String) (w : World) (a : PaymentAccount)
      → (find_account env id user w).0 ≡ ok a
      → is_account id user a ≡ true
  unfolding find_account ◌>>=◌ either raise driver raise_if gets or_raise
  find_account-key id user w a = elim (Bool-cases (env.fails w.calls)) [
    | inl down ↦ rw down (λ e. absurd (ground (arith, e)))
    | inr up ↦ rw up (elim (Option-cases (find (is_account id user) w.payment_accounts)) [
      | inl missing ↦ rw missing (λ e. absurd (ground (arith, e)))
      | inr (d, found) ↦ rw found (λ e.
          subst (λ x. is_account id user x ≡ true) (ok_inj e)
            (find_sound (is_account id user) w.payment_accounts d found))
    ])
  ]

  update_account-chooses :
      (a : PaymentAccount)
      → a.is_default ≡ true
      → Takes (NoOther a.id a.user_id) (IsOnlyDefault a.id a.user_id) (update_account env a)
  unfolding IsOnlyDefault update_account ◌>>=◌ either raise driver raise_if gets modify pure
      time_now set_account
  update_account-chooses a chosen = record {
    after = λ w h b. elim (Bool-cases (env.fails (tick w).calls)) [
      | inl down ↦ rw down (λ e. absurd (ground (arith, e)))
      | inr up ↦ rw up (elim (Bool-cases (any (is_account a.id a.user_id) w.payment_accounts)) [
        | inl found ↦ rw found (λ e.
            let (d, met) = find-any (is_account a.id a.user_id) w.payment_accounts found in
            (
              others_kept a.id a.user_id a (env.now w.calls) w.payment_accounts h,
              (
                set_account a (env.now w.calls) d,
                find-update_first (is_account a.id a.user_id) _ w.payment_accounts d (λ x k. k) met,
                chosen,
              ),
            ))
        | inr missing ↦ rw missing (λ e. absurd (ground (arith, e)))
      ])
    ];
  }

  update_found-chooses :
      (id user : String) (a : PaymentAccount) (now : ℕ)
      → is_account id user a ≡ true
      → Takes
          (NoOther id user)
          (IsOnlyDefault id user)
          (update_account env (record a { is_default = true; updated_at = now }))
  update_found-chooses id user a now key =
      let b = record a { is_default = true; updated_at = now } in
      subst (λ k. Takes (NoOther k user) (IsOnlyDefault k user) (update_account env b))
        ((eq_iff a.id id).0 (ground (arith, key)))
        (subst (λ k. Takes (NoOther a.id k) (IsOnlyDefault a.id k) (update_account env b))
          ((eq_iff a.user_id user).0 (ground (arith, key))) (update_account-chooses b refl))

  set_default-chooses :
      (id user : String) → Takes (λ w. Unit) (IsOnlyDefault id user) (set_default env id user)
  unfolding set_default time_now
  set_default-chooses id user =
      Takes-bind {R = λ w. Unit} _ _ (record { after = λ w t a e. tt })
        λ w0 a0 e0. Takes-bind _ _ (Takes-context _ _ (clear_default-clears id user)) λ w1 t1 e1.
          Takes-bind {R = NoOther id user} _ _
            (Takes-context _ _ (record {
              after =
                  λ w h a e. ap (any (is_other_default id user)) (find_account-same id user w) ∙ h;
            }))
            λ w2 a e2.
              Takes-bind {R = NoOther id user} _ _ (record { after = λ w h t e. h })
                λ w3 now e3. Takes-return _ _ (
                  Takes-context _ _ (
                    update_found-chooses id user a now
                      (find_account-key id user w2 a (context-eq-ok _ _ _ _ e2))))

-- Once the choice of a default account has returned without an error, the chosen account is stored as
-- a default one and the user has no other, whatever accounts were default ones before.
pub default_chosen :
    (env : Env) (id user : String) (w : World)
    → (set_default env id user w).0 ≡ ok tt
    → let accounts = (set_default env id user w).1.payment_accounts in
      (any (is_other_default id user) accounts ≡ false)
      × ((a : PaymentAccount) × (find (is_account id user) accounts ≡ some a)
          × (a.is_default ≡ true))
unfolding IsOnlyDefault
default_chosen env id user w e = (set_default-chooses env id user).after w tt tt e
