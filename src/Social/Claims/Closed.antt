-- ===== src/Social/Claims/Closed.antt =====
-- No unclaimed item under an identifier in an event: what the writes and the checks of the social use
-- cases keep of it.
use backend_go_role_organiza.Prelude.{
  ℕ, String, ◌≡◌, refl, Bool, true, false, not, List, [], ◌∷◌, any, All, select, update_first,
  arith, Bool-cases, inl, inr,
}
use backend_go_role_organiza.Social.Domain.{EventoSocialFeatures, BringListItem}
use backend_go_role_organiza.Social.Documents.{
  existing_or-All, upsert-All, update_first-All, Upserts, unchanged, changed,
  change_or_insert-Upserts, change_first-social, change_or_conflict-social,
}
use backend_go_role_organiza.Social.Repository.{
  new_social_defaults, change_or_insert, change_first, change_or_conflict, of_evento, without_item,
  has_item, map_items, is_claimable, can_claim,
}
use backend_go_role_organiza.World.{World, Env, ◌>>=◌, pure}
use backend_go_role_organiza.World.Within.{IsFrame, Within, Within-bind, Within-pure}

update_first-closed :
    (id : String) (p : BringListItem → Bool) (f : BringListItem → BringListItem)
    (is : List BringListItem)
    → ((i : BringListItem) → p i ≡ true → is_claimable id i ≡ false → is_claimable id (f i) ≡ false)
    → any (is_claimable id) is ≡ false
    → any (is_claimable id) (update_first p f is) ≡ false
update_first-closed id p f [] k h = refl
update_first-closed id p f (i ∷ is) k h = elim (Bool-cases (p i)) [
  | inl hit ↦ rw hit (ground (arith, h, k i hit))
  | inr miss ↦ rw miss (ground (arith, h, update_first-closed id p f is k))
]

select-closed :
    (id : String) (p : BringListItem → Bool) (is : List BringListItem)
    → any (is_claimable id) is ≡ false
    → any (is_claimable id) (select p is) ≡ false
select-closed id p [] h = refl
select-closed id p (i ∷ is) h = ground (arith, h, select-closed id p is)

pub all_closed :
    (p : EventoSocialFeatures → Bool) (ds : List EventoSocialFeatures)
    → any p ds ≡ false
    → All (λ d. p d ≡ false) ds
all_closed p [] h = tt
all_closed p (d ∷ ds) h = (ground (arith, h), all_closed p ds (ground (arith, h)))

pub none_open :
    (p : EventoSocialFeatures → Bool) (ds : List EventoSocialFeatures)
    → All (λ d. p d ≡ false) ds
    → any p ds ≡ false
none_open p [] h = refl
none_open p (d ∷ ds) h = ground (arith, h.0, none_open p ds h.1)

abbrev pub IsClosed : String → String → EventoSocialFeatures → Type 0
IsClosed e id d = can_claim e id d ≡ false

pub record KeepsClosed (e id : String) (w w' : World) : Type 0 where
  pub keeps : All (IsClosed e id) w.social_features → All (IsClosed e id) w'.social_features

pub KeepsClosed-frame : (e id : String) → IsFrame (KeepsClosed e id)
KeepsClosed-frame e id = record {
  rel_refl = λ w. record { keeps = λ h. h };
  rel_trans = λ u v w h k. record { keeps = λ a. k.keeps (h.keeps a) };
  rel_tick = λ w. record { keeps = λ h. h };
}

module _ (e id : String) where
  pub map_items-IsClosed :
      (p : BringListItem → Bool) (f : BringListItem → BringListItem) (now : ℕ)
      (d : EventoSocialFeatures)
      → ((i : BringListItem)
          → p i ≡ true
          → is_claimable id i ≡ false
          → is_claimable id (f i) ≡ false)
      → IsClosed e id d
      → IsClosed e id (map_items now p f d)
  map_items-IsClosed p f now d k h = elim (Bool-cases (of_evento e d)) [
    | inl mine ↦ rw mine (update_first-closed id p f d.bring_list k (ground (arith, h, mine)))
    | inr other ↦ rw other refl
  ]

  pub without_item-IsClosed :
      (x : String) (now : ℕ) (d : EventoSocialFeatures)
      → IsClosed e id d
      → IsClosed e id (without_item x now d)
  without_item-IsClosed x now d h = elim (Bool-cases (of_evento e d)) [
    | inl mine ↦
        rw mine (select-closed id (λ i. not (has_item x i)) d.bring_list (ground (arith, h, mine)))
    | inr other ↦ rw other refl
  ]

  defaults-IsClosed : (key ev : String) (now : ℕ) → IsClosed e id (new_social_defaults key ev now)
  unfolding new_social_defaults
  defaults-IsClosed key ev now = ground arith

  module _ (env : Env) (ev : String) where
    pub change_or_insert-closed :
        (f : ℕ → EventoSocialFeatures → EventoSocialFeatures)
        → ((now : ℕ) (d : EventoSocialFeatures) → IsClosed e id d → IsClosed e id (f now d))
        → Within (KeepsClosed e id) (change_or_insert env ev f)
    change_or_insert-closed f k = record { at = λ w. go w (change_or_insert-Upserts env ev f w) }
      where
        go :
            (w : World)
            → Upserts ev f w.social_features (change_or_insert env ev f w).1.social_features
            → KeepsClosed e id w (change_or_insert env ev f w).1
        go w (unchanged same) = record { keeps = λ h. rw same h }
        go w (changed key now same) = record {
          keeps = λ h. rw same (
              upsert-All (IsClosed e id) _ ev (f now) w.social_features h (
                k now _ (
                  existing_or-All (IsClosed e id) (new_social_defaults key ev now) ev
                    w.social_features (defaults-IsClosed key ev now) h)));
        }

    pub upsert_other-closed :
        (f : ℕ → EventoSocialFeatures → EventoSocialFeatures)
        → ((now : ℕ) (d : EventoSocialFeatures) → IsClosed e id d → IsClosed e id (f now d))
        → Within (KeepsClosed e id) (change_or_insert env ev f >>= λ _. pure tt)
    upsert_other-closed f k =
        Within-bind (KeepsClosed-frame e id) _ _ (change_or_insert-closed f k)
          λ _. Within-pure (KeepsClosed-frame e id) tt

    pub change_first-closed :
        (p : EventoSocialFeatures → Bool) (f : ℕ → EventoSocialFeatures → EventoSocialFeatures)
        → ((now : ℕ) (d : EventoSocialFeatures) → IsClosed e id d → IsClosed e id (f now d))
        → Within (KeepsClosed e id) (change_first env p f)
    change_first-closed p f k = record {
      at = λ w. elim (change_first-social env p f w) [
        | inl same ↦ record { keeps = λ h. rw same h }
        | inr wrote ↦ record {
          keeps = λ h.
              rw wrote
                (update_first-All (IsClosed e id) p _ w.social_features (λ x _ c. k _ x c) h);
        }
      ];
    }

    pub change_or_conflict-closed :
        (s : String) (p : EventoSocialFeatures → Bool)
        (f : ℕ → EventoSocialFeatures → EventoSocialFeatures)
        → ((now : ℕ) (d : EventoSocialFeatures) → IsClosed e id d → IsClosed e id (f now d))
        → Within (KeepsClosed e id) (change_or_conflict env s p f)
    change_or_conflict-closed s p f k = record {
      at = λ w. elim (change_or_conflict-social env s p f w) [
        | inl same ↦ record { keeps = λ h. rw same h }
        | inr wrote ↦ record {
          keeps = λ h.
              rw wrote
                (update_first-All (IsClosed e id) p _ w.social_features (λ x _ c. k _ x c) h);
        }
      ];
    }
