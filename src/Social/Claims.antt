-- ===== src/Social/Claims.antt =====
-- A bring list item is claimed by one user at a time. Closed, Writes and Kept have what the requests that do
-- not release the item keep.
mod Closed
mod Writes
pub mod Kept
use backend_go_role_organiza.Prelude.{
  ℕ, String, ◌+◌, ◌≤◌, ◌==◌, ◌≡◌, ◌≢◌, refl, ◌∙◌, ap, Bool, true, false, List, [], ◌∷◌, any,
  update_first, arith, Bool-cases, inl, inr, if◌then◌else◌,
}
use backend_go_role_organiza.Social.Domain.{EventoSocialFeatures, BringListItem}
use backend_go_role_organiza.Social.Repository.{
  of_evento, is_claimable, can_claim, map_items, set_claim, change_or_conflict, write_claim,
}
use backend_go_role_organiza.Social.UseCases.{as_participante, claim_bring_list_item}
use backend_go_role_organiza.Social.Roles.Refused.{as_participante-same}
use backend_go_role_organiza.Social.Requests.{SocialRequest, serve_all}
use backend_go_role_organiza.Social.Claims.Closed.{all_closed, none_open}
use backend_go_role_organiza.Social.Claims.Kept.{may_open, requests-IsClosed}
use backend_go_role_organiza.World.{
  World, Env, ok, context, ◌>>=◌, either, raise, raise_if, driver, gets, modify, time_now, tick,
}
use backend_go_role_organiza.World.Within.{
  IsFrame, Within, within_rules, Within-bind, Within-context,
}
use backend_go_role_organiza.World.Inversion.{bind-eq-ok, bind-ok, context-eq-ok}

count_items : (BringListItem → Bool) → List BringListItem → ℕ
count_items p [] = 0
count_items p (i ∷ is) = (if p i then 1 else 0) + count_items p is

-- The unclaimed items of the event under an identifier.
unfoldable pub open_items : String → String → List EventoSocialFeatures → ℕ
unfolding count_items
open_items e id [] = 0
open_items e id (d ∷ ds) =
    (if of_evento e d then count_items (is_claimable id) d.bring_list else 0) + open_items e id ds

module _ (id : String) where
  count-any :
      (is : List BringListItem)
      → any (is_claimable id) is ≡ false
      → count_items (is_claimable id) is ≡ 0
  unfolding count_items
  count-any [] h = refl
  count-any (i ∷ is) h = ground (arith, h, count-any is)

  any-count :
      (is : List BringListItem)
      → count_items (is_claimable id) is ≡ 0
      → any (is_claimable id) is ≡ false
  unfolding count_items
  any-count [] h = refl
  any-count (i ∷ is) h = ground (arith, h, any-count is)

  count-claim :
      (u nome : String) (at : ℕ) (is : List BringListItem)
      → (u == "") ≡ false
      → any (is_claimable id) is ≡ true
      → count_items (is_claimable id) (update_first (is_claimable id) (set_claim u nome at) is) + 1
        ≡ count_items (is_claimable id) is
  unfolding count_items
  count-claim u nome at [] n h = absurd (ground (arith, h))
  count-claim u nome at (i ∷ is) n h = ground (arith, n, h, count-claim u nome at is n)

  open-any :
      (e : String) (ds : List EventoSocialFeatures)
      → open_items e id ds ≡ 0
      → any (can_claim e id) ds ≡ false
  unfolding open_items
  open-any e [] h = refl
  open-any e (d ∷ ds) h = ground (arith, h, any-count d.bring_list, open-any e ds)

  open-claim :
      (e u nome : String) (now at : ℕ) (ds : List EventoSocialFeatures)
      → (u == "") ≡ false
      → any (can_claim e id) ds ≡ true
      → open_items e id (
            update_first
              (can_claim e id)
              (map_items now (is_claimable id) (set_claim u nome at))
              ds)
          + 1
        ≡ open_items e id ds
  unfolding open_items
  open-claim e u nome now at [] n h = absurd (ground (arith, h))
  open-claim e u nome now at (d ∷ ds) n h = ground (
    arith,
    h,
    count-claim u nome at d.bring_list n,
    count-any d.bring_list,
    open-claim e u nome now at ds n,
  )

module _ (env : Env) (e id : String) where
  -- A claim that is written takes one open item of the event.
  write_claim-takes :
      (u nome : String) (at : ℕ) (w : World)
      → (u == "") ≡ false
      → (write_claim env e id u nome at w).0 ≡ ok tt
      → open_items e id (write_claim env e id u nome at w).1.social_features + 1
        ≡ open_items e id w.social_features
  unfolding write_claim change_or_conflict ◌>>=◌ either raise driver raise_if gets modify time_now
  write_claim-takes u nome at w n = elim (Bool-cases (env.fails (tick w).calls)) [
    | inl down ↦ rw down (λ h. absurd (ground (arith, h)))
    | inr up ↦ rw up (elim (Bool-cases (any (can_claim e id) w.social_features)) [
      | inl found ↦ rw found (λ h. open-claim id e u nome _ at w.social_features n found)
      | inr missing ↦ rw missing (λ h. absurd (ground (arith, h)))
    ])
  ]

  write_claim-blocked :
      (u nome : String) (at : ℕ) (w : World)
      → any (can_claim e id) w.social_features ≡ false
      → ((write_claim env e id u nome at w).0 ≢ ok tt)
        × ((write_claim env e id u nome at w).1.social_features ≡ w.social_features)
  unfolding write_claim change_or_conflict ◌>>=◌ either raise driver raise_if gets modify time_now
  write_claim-blocked u nome at w none_open = elim (Bool-cases (env.fails (tick w).calls)) [
    | inl down ↦ rw down ((λ h. absurd (ground (arith, h))), refl)
    | inr up ↦ rw up (rw none_open ((λ h. absurd (ground (arith, h))), refl))
  ]

  -- Where the write of a returned claim began: with the social features of the call.
  claim_writes :
      (u nome : String) (w : World)
      → (claim_bring_list_item env e u nome id w).0 ≡ ok tt
      → (w' : World) × (at : ℕ) × (w'.social_features ≡ w.social_features)
        × ((write_claim env e id u nome at w').0 ≡ ok tt)
        × ((claim_bring_list_item env e u nome id w).1 ≡ (write_claim env e id u nome at w').1)
  unfolding claim_bring_list_item context time_now
  claim_writes u nome w h =
      let check = as_participante env "claim bring list item: verificar autorização" e u in
      let (_, role, rest) = bind-eq-ok check _ w tt h in
      let (at, clock, wrote) = bind-eq-ok (time_now env) _ (check w).1 tt rest in
      let w' = (time_now env (check w).1).1 in
      (
        w',
        at,
        ((as_participante-same env e u _).at w).same_features,
        context-eq-ok _ (write_claim env e id u nome at) w' tt wrote,
        ap (λ r. r.1) (bind-ok check _ w tt role ∙ bind-ok (time_now env) _ (check w).1 at clock),
      )

  claim-refused :
      (u nome : String) (w : World)
      → any (can_claim e id) w.social_features ≡ false
      → (claim_bring_list_item env e u nome id w).0 ≢ ok tt
  claim-refused u nome w closed h =
      let (w', at, same, wrote, _) = claim_writes u nome w h in
      (write_claim-blocked u nome at w' (ap (any (can_claim e id)) same ∙ closed)).0 wrote

  -- With no open item, a call leaves the social features as they are.
  Blocked : World → World → Type 0
  Blocked w w' =
      any (can_claim e id) w.social_features ≡ false → w'.social_features ≡ w.social_features

  Blocked-frame : IsFrame Blocked
  unfolding Blocked
  Blocked-frame = record {
    rel_refl = λ w closed. refl;
    rel_trans = λ a b c h k closed. k (ap (any (can_claim e id)) (h closed) ∙ closed) ∙ h closed;
    rel_tick = λ w closed. refl;
  }

  claim-Blocked : (u nome : String) → Within Blocked (claim_bring_list_item env e u nome id)
  unfolding Blocked claim_bring_list_item
  claim-Blocked u nome =
      Within-bind Blocked-frame _ _
        (record { at = λ w closed. ((as_participante-same env e u _).at w).same_features })
        λ _. Within-bind Blocked-frame _ _ (search (within_rules, Blocked-frame)) λ at.
          Within-context Blocked-frame _ (write_claim env e id u nome at)
            (record { at = λ w closed. (write_claim-blocked u nome at w closed).1 })

-- Where the event has at most one unclaimed item under an identifier, once a claim of it by an
-- identified user has returned without error, and after any sequence of social requests that neither
-- release that item nor add one, a claim of it, by anyone, is refused and changes no social features,
-- whatever database calls fail.
pub claimed_once :
    (env between later : Env) (rs : List SocialRequest) (e id u nome v other : String) (w : World)
    → open_items e id w.social_features ≤ 1
    → (u == "") ≡ false
    → (claim_bring_list_item env e u nome id w).0 ≡ ok tt
    → any (λ r. may_open id r.operation) rs ≡ false
    → let w' = serve_all between rs (claim_bring_list_item env e u nome id w).1 in
      ((claim_bring_list_item later e v other id w').0 ≢ ok tt)
      × ((claim_bring_list_item later e v other id w').1.social_features ≡ w'.social_features)
unfolding Blocked
claimed_once env between later rs e id u nome v other w one n h shut =
    let first = (claim_bring_list_item env e u nome id w).1 in
    let (w1, at, same, wrote, left) = claim_writes env e id u nome w h in
    let takes = write_claim-takes env e id u nome at w1 n wrote in
    let before = ap (open_items e id) same in
    let after = ap (λ x. open_items e id x.social_features) left in
    let closed : any (can_claim e id) first.social_features ≡ false =
      open-any id e first.social_features (omega (arith, one, takes, before, after)) in
    let w' = serve_all between rs first in
    let still : any (can_claim e id) w'.social_features ≡ false =
      none_open (can_claim e id) w'.social_features (
        requests-IsClosed e id between rs first shut
          (all_closed (can_claim e id) first.social_features closed)) in
    (claim-refused later e id v other w' still, (claim-Blocked later e id v other).at w' still)
