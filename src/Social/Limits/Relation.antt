-- ===== src/Social/Limits/Relation.antt =====
-- The limits of a document of the social features, and what it takes for a write to keep them.
use backend_go_role_organiza.Prelude.{
  ℕ, String, ◌≤◌, ◌==◌, ◌≡◌, refl, Bool, true, false, List, [], ◌∷◌, ◌++◌, any, All, length,
  any-append, select, arith, inl, inr, eq_false_sym,
}
use backend_go_role_organiza.Social.Domain.{EventoSocialFeatures, Checkin}
use backend_go_role_organiza.Social.Repository.{
  new_social_defaults, existing_or, change_or_insert, change_first, change_or_conflict,
}
use backend_go_role_organiza.Social.Documents.{
  existing_or-All, upsert-All, update_first-All, Upserts, unchanged, changed,
  change_or_insert-Upserts, change_first-social, change_or_conflict-social,
}
use backend_go_role_organiza.World.{World, Env}
use backend_go_role_organiza.World.Within.{IsFrame, Within}

abbrev pub IsDistinct : List Checkin → Type 0
IsDistinct [] = Unit
IsDistinct (c ∷ cs) = (any (λ d. d.usuario_id == c.usuario_id) cs ≡ false) × IsDistinct cs

abbrev pub IsWithinLimits : EventoSocialFeatures → Type 0
IsWithinLimits d = (length d.playlists ≤ 3) × (length d.album_links ≤ 5) × IsDistinct d.checkins

pub record KeepsLimits (w w' : World) : Type 0 where
  pub keeps : All IsWithinLimits w.social_features → All IsWithinLimits w'.social_features

pub KeepsLimits-frame : IsFrame KeepsLimits
KeepsLimits-frame = record {
  rel_refl = λ w. record { keeps = λ h. h };
  rel_trans = λ u v w h k. record { keeps = λ a. k.keeps (h.keeps a) };
  rel_tick = λ w. record { keeps = λ h. h };
}

pub select-length : {A : Type 0} (p : A → Bool) (xs : List A) → length (select p xs) ≤ length xs
select-length p [] = omega arith
select-length p (x ∷ xs) = ground (arith, select-length p xs)

pub IsDistinct-push :
    (c : Checkin) (cs : List Checkin)
    → any (λ d. d.usuario_id == c.usuario_id) cs ≡ false
    → IsDistinct cs
    → IsDistinct (cs ++ c ∷ [])
IsDistinct-push c [] h k = (refl, tt)
IsDistinct-push c (d ∷ cs) h k = (
  ground (
    arith,
    any-append (λ x. x.usuario_id == d.usuario_id) cs (c ∷ []),
    eq_false_sym d.usuario_id c.usuario_id,
    k.0,
    h,
  ),
  IsDistinct-push c cs (ground (arith, h)) k.1,
)

module _ (env : Env) (e : String) where
  abbrev pub met : String → ℕ → World → EventoSocialFeatures
  met id now w = existing_or (new_social_defaults id e now) e w.social_features

  pub met-IsWithinLimits :
      (id : String) (now : ℕ) (w : World)
      → All IsWithinLimits w.social_features
      → IsWithinLimits (met id now w)
  unfolding new_social_defaults
  met-IsWithinLimits id now w h =
      existing_or-All IsWithinLimits (new_social_defaults id e now) e w.social_features
        (omega arith, omega arith, tt) h

  pub change_or_insert-keeps_at :
      (f : ℕ → EventoSocialFeatures → EventoSocialFeatures) (w : World)
      → ((id : String) (now : ℕ)
          → IsWithinLimits (met id now w)
          → IsWithinLimits (f now (met id now w)))
      → KeepsLimits w (change_or_insert env e f w).1
  change_or_insert-keeps_at f w k = go (change_or_insert-Upserts env e f w)
    where
      go :
          Upserts e f w.social_features (change_or_insert env e f w).1.social_features
          → KeepsLimits w (change_or_insert env e f w).1
      go (unchanged same) = record { keeps = λ h. rw same h }
      go (changed id now same) = record {
        keeps = λ h. rw same (
            upsert-All IsWithinLimits _ e (f now) w.social_features h
              (k id now (met-IsWithinLimits id now w h)));
      }

  pub change_or_insert-keeps :
      (f : ℕ → EventoSocialFeatures → EventoSocialFeatures)
      → ((now : ℕ) (d : EventoSocialFeatures) → IsWithinLimits d → IsWithinLimits (f now d))
      → Within KeepsLimits (change_or_insert env e f)
  change_or_insert-keeps f k = record {
    at = λ w. change_or_insert-keeps_at f w (λ id now. k now (met id now w));
  }

module _ (env : Env) where
  pub change_first-keeps :
      (p : EventoSocialFeatures → Bool) (f : ℕ → EventoSocialFeatures → EventoSocialFeatures)
      → ((now : ℕ) (d : EventoSocialFeatures)
          → p d ≡ true
          → IsWithinLimits d
          → IsWithinLimits (f now d))
      → Within KeepsLimits (change_first env p f)
  change_first-keeps p f k = record {
    at = λ w. elim (change_first-social env p f w) [
      | inl same ↦ record { keeps = λ h. rw same h }
      | inr wrote ↦ record {
        keeps = λ h. rw wrote (update_first-All IsWithinLimits p _ w.social_features (k _) h);
      }
    ];
  }

  pub change_or_conflict-keeps :
      (s : String) (p : EventoSocialFeatures → Bool)
      (f : ℕ → EventoSocialFeatures → EventoSocialFeatures)
      → ((now : ℕ) (d : EventoSocialFeatures)
          → p d ≡ true
          → IsWithinLimits d
          → IsWithinLimits (f now d))
      → Within KeepsLimits (change_or_conflict env s p f)
  change_or_conflict-keeps s p f k = record {
    at = λ w. elim (change_or_conflict-social env s p f w) [
      | inl same ↦ record { keeps = λ h. rw same h }
      | inr wrote ↦ record {
        keeps = λ h. rw wrote (update_first-All IsWithinLimits p _ w.social_features (k _) h);
      }
    ];
  }
