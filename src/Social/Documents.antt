-- ===== src/Social/Documents.antt =====
-- The documents of evento_social_features under the writes of the repository: a predicate that each
-- write keeps is kept by all of them.
use backend_go_role_organiza.Prelude.{
  ℕ, String, ◌≡◌, refl, Bool, true, List, [], ◌∷◌, any, All, update_first, arith, Bool-cases, inl,
  inr, ◌⊎◌, eq_refl, ◌∙◌,
}
use backend_go_role_organiza.Social.Domain.{EventoSocialFeatures}
use backend_go_role_organiza.Social.Repository.{
  of_evento, new_social_defaults, existing_or, upsert, change_or_insert, change_first,
  change_or_conflict, find_or_create,
}
use backend_go_role_organiza.World.Inversion.{ok_inj}
use backend_go_role_organiza.World.{
  World, Env, ok, ◌>>=◌, either, raise, driver, raise_if, pure, gets, modify, time_now, new_uuid,
  tick,
}

module _ (P : EventoSocialFeatures → Type 0) where
  pub existing_or-All :
      (d : EventoSocialFeatures) (e : String) (xs : List EventoSocialFeatures)
      → P d
      → All P xs
      → P (existing_or d e xs)
  unfolding existing_or
  existing_or-All d e [] p h = p
  existing_or-All d e (x ∷ xs) p h = elim (Bool-cases (of_evento e x)) [
    | inl hit ↦ rw hit h.0
    | inr miss ↦ rw miss (existing_or-All d e xs p h.1)
  ]

  -- Only the document that the query meets has to satisfy the predicate after the write.
  pub upsert-All :
      (d : EventoSocialFeatures) (e : String) (f : EventoSocialFeatures → EventoSocialFeatures)
      (xs : List EventoSocialFeatures)
      → All P xs
      → P (f (existing_or d e xs))
      → All P (upsert d e f xs)
  unfolding existing_or upsert
  upsert-All d e f [] h = λ p. (p, tt)
  upsert-All d e f (x ∷ xs) h = elim (Bool-cases (of_evento e x)) [
    | inl hit ↦ rw hit (λ p. (p, h.1))
    | inr miss ↦ rw miss (λ p. (h.0, upsert-All d e f xs h.1 p))
  ]

  pub update_first-All :
      (p : EventoSocialFeatures → Bool) (f : EventoSocialFeatures → EventoSocialFeatures)
      (xs : List EventoSocialFeatures)
      → ((x : EventoSocialFeatures) → p x ≡ true → P x → P (f x))
      → All P xs
      → All P (update_first p f xs)
  update_first-All p f [] k h = tt
  update_first-All p f (x ∷ xs) k h = elim (Bool-cases (p x)) [
    | inl hit ↦ rw hit (k x hit h.0, h.1)
    | inr miss ↦ rw miss (h.0, update_first-All p f xs k h.1)
  ]

-- What an upsert leaves: nothing new, or one document changed.
pub data Upserts (e : String) (f : ℕ → EventoSocialFeatures → EventoSocialFeatures)
    (xs ys : List EventoSocialFeatures) : Type 0 where
  unchanged : ys ≡ xs → Upserts e f xs ys
  changed :
      (id : String) (now : ℕ)
      → ys ≡ upsert (new_social_defaults id e now) e (f now) xs
      → Upserts e f xs ys

existing_or-of_upsert :
    (d d' : EventoSocialFeatures) (e : String) (xs : List EventoSocialFeatures)
    → d.evento_id ≡ e
    → existing_or d' e (upsert d e (λ x. x) xs) ≡ existing_or d e xs
unfolding existing_or upsert
existing_or-of_upsert d d' e [] same = rw same (rw (eq_refl e) refl)
existing_or-of_upsert d d' e (x ∷ xs) same = elim (Bool-cases (of_evento e x)) [
  | inl hit ↦ rw hit (rw hit refl)
  | inr miss ↦ rw miss (rw miss (existing_or-of_upsert d d' e xs same))
]

module _ (env : Env) (e : String) where
  pub change_or_insert-Upserts :
      (f : ℕ → EventoSocialFeatures → EventoSocialFeatures) (w : World)
      → Upserts e f w.social_features (change_or_insert env e f w).1.social_features
  unfolding change_or_insert ◌>>=◌ either raise driver raise_if pure gets modify time_now new_uuid
  change_or_insert-Upserts f w = elim (Bool-cases (env.fails (tick (tick w)).calls)) [
    | inl down ↦ rw down (unchanged refl)
    | inr up ↦ rw up (changed (env.uuid (tick w).calls) (env.now w.calls) refl)
  ]

  -- `find_or_create` returns the document that every later query for the event meets.
  pub find_or_create-existing :
      (w : World) (doc d : EventoSocialFeatures)
      → (find_or_create env e w).0 ≡ ok doc
      → existing_or d e (find_or_create env e w).1.social_features ≡ doc
  unfolding find_or_create change_or_insert new_social_defaults ◌>>=◌ either raise driver raise_if
      pure gets modify time_now new_uuid
  find_or_create-existing w doc d = elim (Bool-cases (env.fails (tick (tick w)).calls)) [
    | inl down ↦ rw down (λ h. absurd (ground (arith, h)))
    | inr up ↦ rw up (λ h. existing_or-of_upsert _ d e w.social_features refl ∙ ok_inj h)
  ]

module _ (env : Env) where
  pub change_first-social :
      (p : EventoSocialFeatures → Bool) (f : ℕ → EventoSocialFeatures → EventoSocialFeatures)
      (w : World)
      → ((change_first env p f w).1.social_features ≡ w.social_features)
        ⊎ ((change_first env p f w).1.social_features
            ≡ update_first p (f (env.now w.calls)) w.social_features)
  unfolding change_first ◌>>=◌ either raise driver raise_if modify time_now
  change_first-social p f w = elim (Bool-cases (env.fails (tick w).calls)) [
    | inl down ↦ rw down (inl refl)
    | inr up ↦ rw up (inr refl)
  ]

  pub change_or_conflict-social :
      (s : String) (p : EventoSocialFeatures → Bool)
      (f : ℕ → EventoSocialFeatures → EventoSocialFeatures) (w : World)
      → ((change_or_conflict env s p f w).1.social_features ≡ w.social_features)
        ⊎ ((change_or_conflict env s p f w).1.social_features
            ≡ update_first p (f (env.now w.calls)) w.social_features)
  unfolding change_or_conflict ◌>>=◌ either raise driver raise_if gets modify time_now
  change_or_conflict-social s p f w = elim (Bool-cases (env.fails (tick w).calls)) [
    | inl down ↦ rw down (inl refl)
    | inr up ↦ rw up (elim (Bool-cases (any p w.social_features)) [
      | inl found ↦ rw found (inr refl)
      | inr missing ↦ rw missing (inl refl)
    ])
  ]
