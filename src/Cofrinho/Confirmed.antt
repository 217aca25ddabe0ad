-- ===== src/Cofrinho/Confirmed.antt =====
-- A contribution that is no longer pending stays as it is.
use backend_go_role_organiza.Prelude.{
  ℕ, String, ◌==◌, ◌≡◌, refl, sym, ap, subst, ◌∙◌, false, not, some, List, [], ◌∷◌, find,
  Bool-cases, inl, inr, eq_iff, find-append, find-update_other, find-drop_other, keys-differ,
  eq_false_sym,
}
use backend_go_role_organiza.ApiErr.{Error}
use backend_go_role_organiza.Cofrinho.Domain.{CofrinhoContribuicao, status_confirmado}
use backend_go_role_organiza.Cofrinho.Repository.{
  is_contribuicao, with_status, fresh_id, save_contribuicao, find_contribuicao, find_contribuicoes,
  update_status, erase_contribuicao,
}
use backend_go_role_organiza.Cofrinho.UseCases.{
  CofrinhoRequest, is_pendente, create_contribuicao, get_contribuicao, list_contribuicoes,
  confirmar_contribuicao, remover_contribuicao, serve_contribuicao, serve_contribuicoes,
}
use backend_go_role_organiza.World.{
  World, Env, Action, ◌>>=◌, ◌>>◌, either, raise, raise_if, driver, gets, modify, or_raise,
}
use backend_go_role_organiza.World.Within.{
  IsFrame, Within, within_rules, Within-bind, Within-raise_if,
}

-- The contribution under `i`, where it is not pending, stays as it is.
record Keeps (i : String) (w w' : World) : Type 0 where
  kept :
      (c : CofrinhoContribuicao)
      → find (is_contribuicao i) w.contribuicoes ≡ some c
      → is_pendente c ≡ false
      → find (is_contribuicao i) w'.contribuicoes ≡ some c

Keeps-frame : (i : String) → IsFrame (Keeps i)
Keeps-frame i = record {
  rel_refl = λ w. record { kept = λ c e p. e };
  rel_trans = λ u v w h k. record { kept = λ c e p. k.kept c (h.kept c e p) p };
  rel_tick = λ w. record { kept = λ c e p. e };
}

module _ (env : Env) (i : String) where
  Keeps-modify :
      (f : World → World)
      → ((w : World) (c : CofrinhoContribuicao)
          → find (is_contribuicao i) w.contribuicoes ≡ some c
          → is_pendente c ≡ false
          → find (is_contribuicao i) (f w).contribuicoes ≡ some c)
      → Within (Keeps i) (modify f)
  unfolding modify
  Keeps-modify f h = record { at = λ w. record { kept = h w } }

  ruleset keep_rules = (within_rules, Keeps-frame, Keeps-modify)

  find_contribuicao-Keeps : (id : String) → Within (Keeps i) (find_contribuicao env id)
  unfolding find_contribuicao
  find_contribuicao-Keeps id = search keep_rules depth 9

  save_contribuicao-Keeps : (c : CofrinhoContribuicao) → Within (Keeps i) (save_contribuicao env c)
  unfolding save_contribuicao fresh_id
  save_contribuicao-Keeps c =
      search
        (
          keep_rules,
          λ (w : World) (x d : CofrinhoContribuicao)
                (e : find (is_contribuicao i) w.contribuicoes ≡ some d) (p : is_pendente d ≡ false).
              find-append (is_contribuicao i) w.contribuicoes (x ∷ []) d e,
        )
        depth 12

  -- The writes to another contribution.
  update_status-other :
      (id status payment_id : String)
      → (id == i) ≡ false
      → Within (Keeps i) (update_status env id status payment_id)
  unfolding update_status
  update_status-other id status payment_id other =
      search
        (
          keep_rules,
          λ (w : World) (now : ℕ) (c : CofrinhoContribuicao)
                (e : find (is_contribuicao i) w.contribuicoes ≡ some c) (p : is_pendente c ≡ false).
              find-update_other (is_contribuicao i) (is_contribuicao id)
                (with_status status payment_id now) w.contribuicoes (λ x. refl)
                (λ x q. keys-differ x.id i id (eq_false_sym id i other) q)
              ∙ e,
        )
        depth 12

  erase-other : (id : String) → (id == i) ≡ false → Within (Keeps i) (erase_contribuicao env id)
  unfolding erase_contribuicao
  erase-other id other =
      search
        (
          keep_rules,
          λ (w : World) (c : CofrinhoContribuicao)
                (e : find (is_contribuicao i) w.contribuicoes ≡ some c) (p : is_pendente c ≡ false).
              find-drop_other (is_contribuicao i) (is_contribuicao id) w.contribuicoes
                (λ x q. keys-differ x.id i id (eq_false_sym id i other) q)
              ∙ e,
        )
        depth 9

  -- Behind the guard, a contribution that is not pending is not reached.
  guard_refuses :
      {A : Type 0} (x : CofrinhoContribuicao → Error) (m : Action A) (w : World)
      (c : CofrinhoContribuicao)
      → find (is_contribuicao i) w.contribuicoes ≡ some c
      → is_pendente c ≡ false
      → let w' =
          ((find_contribuicao env i >>= λ d. raise_if (not (is_pendente d)) (x d) >> m) w).1 in
        w'.contribuicoes ≡ w.contribuicoes
  unfolding find_contribuicao ◌>>=◌ either raise driver raise_if gets or_raise
  guard_refuses x m w c e p = elim (Bool-cases (env.fails w.calls)) [
    | inl down ↦ rw down refl
    | inr up ↦ rw up (rw e (rw p refl))
  ]

  guarded-Keeps :
      {A : Type 0} (id : String) (x : CofrinhoContribuicao → Error) (m : Action A)
      → ((id == i) ≡ false → Within (Keeps i) m)
      → Within
          (Keeps i)
          (find_contribuicao env id >>= λ d. raise_if (not (is_pendente d)) (x d) >> m)
  guarded-Keeps id x m h = elim (Bool-cases (id == i)) [
    | inl same ↦
        subst
          (λ k.
            Within (Keeps i)
              (find_contribuicao env k >>= λ d. raise_if (not (is_pendente d)) (x d) >> m))
          (sym ((eq_iff id i).0 same))
          (record {
            at = λ w. record {
              kept = λ c e p. ap (find (is_contribuicao i)) (guard_refuses x m w c e p) ∙ e;
            };
          })
    | inr other ↦
        Within-bind (Keeps-frame i) _ _ (find_contribuicao-Keeps id)
          λ c. Within-bind (Keeps-frame i) _ _ (Within-raise_if (Keeps-frame i) _ _) λ _. h other
  ]

  serve_contribuicao-Keeps :
      (r : CofrinhoRequest) (w : World) → Keeps i w (serve_contribuicao env r w)
  unfolding serve_contribuicao create_contribuicao get_contribuicao list_contribuicoes
      find_contribuicoes confirmar_contribuicao remover_contribuicao
  serve_contribuicao-Keeps (CofrinhoRequest.create input) w =
      let h : Within (Keeps i) (create_contribuicao env input) =
        search (keep_rules, save_contribuicao-Keeps) depth 12 in
      h.at w
  serve_contribuicao-Keeps (CofrinhoRequest.get id) w = (find_contribuicao-Keeps id).at w
  serve_contribuicao-Keeps (CofrinhoRequest.list evento_id) w =
      let h : Within (Keeps i) (list_contribuicoes env evento_id) = search keep_rules depth 9 in
      h.at w
  serve_contribuicao-Keeps (CofrinhoRequest.remove id) w =
      (Within-bind (Keeps-frame i) _ _ (Within-raise_if (Keeps-frame i) _ _)
          (λ _. guarded-Keeps id _ (erase_contribuicao env id) (erase-other id))).at
        w
  serve_contribuicao-Keeps (CofrinhoRequest.confirm id payment_id) w =
      (guarded-Keeps id _ (update_status env id status_confirmado payment_id)
          (update_status-other id status_confirmado payment_id)).at
        w

-- A stored contribution whose status is not PENDENTE, as a confirmed one, is the same document after
-- any sequence of requests to the cofrinho use cases, one after the other, whatever database calls
-- fail: it is not confirmed again, with another payment, and not removed.
pub confirmed_kept :
    (env : Env) (rs : List CofrinhoRequest) (i : String) (w : World) (c : CofrinhoContribuicao)
    → find (is_contribuicao i) w.contribuicoes ≡ some c
    → is_pendente c ≡ false
    → find (is_contribuicao i) (serve_contribuicoes env rs w).contribuicoes ≡ some c
unfolding serve_contribuicoes
confirmed_kept env [] i w c e p = e
confirmed_kept env (r ∷ rs) i w c e p =
    confirmed_kept env rs i (serve_contribuicao env r w) c
      ((serve_contribuicao-Keeps env i r w).kept c e p) p
