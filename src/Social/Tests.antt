-- ===== src/Social/Tests.antt =====
-- The theorems on the social features at concrete inputs.
use backend_go_role_organiza.Prelude.{List, ◌≡◌, ◌≢◌, refl, false, none, [], ◌∷◌, All, arith}
use backend_go_role_organiza.Event.Domain.{EventoDocument}
use backend_go_role_organiza.Payment.Tests.Data.{env, world}
use backend_go_role_organiza.Social.Domain.{EventoSocialFeatures, BringListItem}
use backend_go_role_organiza.Social.Repository.{new_social_defaults}
use backend_go_role_organiza.Social.UseCases.{claim_bring_list_item}
use backend_go_role_organiza.Social.Requests.{
  SocialRequest, SocialOperation, serve, serve_all, is_allowed,
}
use backend_go_role_organiza.Social.Limits.Relation.{IsWithinLimits}
use backend_go_role_organiza.Social.Limits.{requests_keep_limits}
use backend_go_role_organiza.Social.Roles.{strangers_change_nothing}
use backend_go_role_organiza.Social.Claims.{open_items, claimed_once}
use backend_go_role_organiza.Social.Claims.Kept.{may_open}
use backend_go_role_organiza.World.{
  World, ok, ◌>>=◌, driver, gets, or_raise, context, wrap, pure, time_now, modify,
}

abbrev evento : EventoDocument
evento = record {
  id = "e1";
  nome = "Festa";
  tipo = "ANIVERSARIO";
  data_inicio = 9;
  usuario_id_responsavel = "u1";
  descricao = "";
  local = "";
  status = "PUBLICADO";
  limite_convidados = none;
  politica_convidados = "";
  politica_cancelamento = "";
  rateios_habilitado = false;
  pagamentos_habilitado = false;
  convidados = [];
  modulos_ativos = [];
  configuracao_nicho = "";
  criado_em = 1;
  atualizado_em = 1;
}

abbrev bread : BringListItem
bread = record {
  id = "i1";
  nome = "Pão";
  quantidade = "2";
  claimed_by = "";
  claimed_by_nome = "";
  claimed_at = none;
}

abbrev features : EventoSocialFeatures
features = record (new_social_defaults "s1" "e1" 1) { bring_list = bread ∷ [] }

abbrev party : World
party = record world { eventos = evento ∷ []; social_features = features ∷ [] }

abbrev songs : SocialRequest
songs = record {
  evento_id = "e1";
  usuario_id = "u1";
  operation = SocialOperation.playlist "https://open.spotify.com/playlist/abc" "Samba";
}

requests_keep_limits_example :
    All IsWithinLimits (serve_all env (songs ∷ songs ∷ songs ∷ songs ∷ []) party).social_features
unfolding new_social_defaults
requests_keep_limits_example =
    requests_keep_limits env (songs ∷ songs ∷ songs ∷ songs ∷ []) party
      ((omega arith, omega arith, tt), tt)

abbrev intrusion : SocialRequest
intrusion = record songs { usuario_id = "u2" }

strangers_change_nothing_example : (serve env intrusion party).social_features ≡ features ∷ []
unfolding is_allowed
strangers_change_nothing_example = strangers_change_nothing env intrusion party refl

abbrev after_claim : List SocialRequest
after_claim =
    record { evento_id = "e1"; usuario_id = "u2"; operation = SocialOperation.claim "Bia" "i1" }
    ∷ record { evento_id = "e1"; usuario_id = "u1"; operation = SocialOperation.unclaim "i2" }
    ∷ []

-- Another user claims the item, and the one who has it releases another one.
claimed_once_example :
    let w' = serve_all env after_claim (claim_bring_list_item env "e1" "u1" "Ana" "i1" party).1 in
    ((claim_bring_list_item env "e1" "u2" "Bia" "i1" w').0 ≢ ok tt)
    × ((claim_bring_list_item env "e1" "u2" "Bia" "i1" w').1.social_features ≡ w'.social_features)
unfolding claim_bring_list_item open_items may_open new_social_defaults ◌>>=◌ driver gets or_raise
    context wrap pure time_now modify
claimed_once_example =
    claimed_once env env env after_claim "e1" "i1" "u1" "Ana" "u2" "Bia" party (omega arith) refl
      refl refl
