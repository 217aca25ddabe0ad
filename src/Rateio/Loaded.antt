-- ===== src/Rateio/Loaded.antt =====
-- The stored split that a use case works on, and what it means to leave a closed one as it is.
use backend_go_role_organiza.Prelude.{
  String, ◌==◌, ◌≡◌, refl, sym, ap, ◌∙◌, Bool, true, some, find, arith, Bool-cases, Option-cases,
  inl, inr,
}
use backend_go_role_organiza.Rateio.Domain.{Rateio, RateioDocument, rateio_is_owner}
use backend_go_role_organiza.Rateio.Repository.{rateio_doc_to_domain, is_rateio, find_rateio}
use backend_go_role_organiza.Rateio.UseCases.{get_rateio}
use backend_go_role_organiza.World.{
  World, Env, ok, ◌>>=◌, either, raise, raise_if, driver, gets, modify, or_raise, pure,
}
use backend_go_role_organiza.World.Within.{IsFrame, Within, within_rules}
use backend_go_role_organiza.World.Inversion.{ok_inj}

abbrev pub is_closed : RateioDocument → Bool
is_closed d = d.status == "CANCELADO"

-- A stored split that is closed stays as it is.
pub record Freezes (id : String) (w w' : World) : Type 0 where
  pub frozen :
      (d : RateioDocument)
      → find (is_rateio id) w.rateios ≡ some d
      → is_closed d ≡ true
      → find (is_rateio id) w'.rateios ≡ some d

pub Freezes-frame : (id : String) → IsFrame (Freezes id)
Freezes-frame id = record {
  rel_refl = λ w. record { frozen = λ d e c. e };
  rel_trans = λ u v w h k. record { frozen = λ d e c. k.frozen d (h.frozen d e c) c };
  rel_tick = λ w. record { frozen = λ d e c. e };
}

pub record SameRateios (w w' : World) : Type 0 where
  pub same : w'.rateios ≡ w.rateios

pub SameRateios-frame : IsFrame SameRateios
SameRateios-frame = record {
  rel_refl = λ w. record { same = refl };
  rel_trans = λ u v w h k. record { same = k.same ∙ h.same };
  rel_tick = λ w. record { same = refl };
}

pub Freezes-of-SameRateios : (id : String) (w w' : World) → SameRateios w w' → Freezes id w w'
Freezes-of-SameRateios id w w' h = record { frozen = λ d e c. ap (find (is_rateio id)) h.same ∙ e }

pub Within-modify_same :
    (f : World → World) → ((w : World) → (f w).rateios ≡ w.rateios) → Within SameRateios (modify f)
unfolding modify
Within-modify_same f h = record { at = λ w. record { same = h w } }

pub Within-modify_frozen :
    (i : String) (f : World → World)
    → ((w : World) (d : RateioDocument)
        → find (is_rateio i) w.rateios ≡ some d
        → is_closed d ≡ true
        → find (is_rateio i) (f w).rateios ≡ some d)
    → Within (Freezes i) (modify f)
unfolding modify
Within-modify_frozen i f h = record { at = λ w. record { frozen = h w } }

module _ (env : Env) where
  pub find_rateio-same : (id : String) → Within SameRateios (find_rateio env id)
  unfolding find_rateio
  find_rateio-same id = search (within_rules, SameRateios-frame) depth 9

  pub get_rateio-same : (id user : String) → Within SameRateios (get_rateio env id user)
  unfolding get_rateio find_rateio
  get_rateio-same id user = search (within_rules, SameRateios-frame) depth 9

  pub get_rateio-Freezes : (i id user : String) → Within (Freezes i) (get_rateio env id user)
  get_rateio-Freezes i id user = record {
    at = λ w. Freezes-of-SameRateios i w _ ((get_rateio-same id user).at w);
  }

  -- The split that a use case works on is the stored one, and its requester is the owner.
  pub get_rateio-found :
      (id user : String) (w : World) (r : Rateio)
      → (get_rateio env id user w).0 ≡ ok r
      → (d : RateioDocument) × (find (is_rateio id) w.rateios ≡ some d)
        × (r ≡ rateio_doc_to_domain env.floats d)
        × (rateio_is_owner r user ≡ true)
  unfolding get_rateio find_rateio ◌>>=◌ either raise driver raise_if gets or_raise pure
  get_rateio-found id user w r = elim (Bool-cases (env.fails w.calls)) [
    | inl down ↦ rw down (λ h. absurd (ground (arith, h)))
    | inr up ↦ rw up (elim (Option-cases (find (is_rateio id) w.rateios)) [
      | inl missing ↦ rw missing (λ h. absurd (ground (arith, h)))
      | inr (d, found) ↦
          rw found (elim (Bool-cases (rateio_is_owner (rateio_doc_to_domain env.floats d) user)) [
            | inl owner ↦ rw owner (λ h. (
              d,
              refl,
              sym (ok_inj h),
              ap (λ x. rateio_is_owner x user) (sym (ok_inj h)) ∙ owner,
            ))
            | inr stranger ↦ rw stranger (λ h. absurd (ground (arith, h)))
          ])
    ])
  ]
