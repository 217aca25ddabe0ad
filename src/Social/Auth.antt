-- ===== src/Social/Auth.antt =====
-- `EventoAuthAdapter` of internal/adapter/mongodb/social.go: it reads the collections eventos and
-- participants. An identifier is compared by its text.
use backend_go_role_organiza.Prelude.{
  String, ◌==◌, Bool, true, ◌&&◌, ◌||◌, find, any, if◌then◌else◌,
}
use backend_go_role_organiza.ApiErr.{internal, not_found, unprocessable}
use backend_go_role_organiza.Event.Domain.{EventoDocument}
use backend_go_role_organiza.Finance.Domain.{Participant}
use backend_go_role_organiza.Social.Domain.{fase_aguardando_aceite}
use backend_go_role_organiza.World.{
  Env, Action, pure, gets, or_raise, ◌>>=◌, ◌>>◌, raise_if, driver,
}

abbrev pub has_id : String → EventoDocument → Bool
has_id id e = e.id == id

-- The filter of the participants collection.
abbrev pub is_confirmed : String → String → Participant → Bool
is_confirmed evento_id usuario_id p =
    p.event_id == evento_id
    && p.user_id == usuario_id
    && (p.status == "ACEITO" || p.status == "CONFIRMADO")

module _ (env : Env) where
  unfoldable pub find_evento_document : String → Action EventoDocument
  find_evento_document evento_id = do
    driver env internal
    found ← gets (λ w. find (has_id evento_id) w.eventos)
    or_raise found (not_found "evento" evento_id)

  unfoldable pub fase_at_least : String → String → Action (Unit {0})
  unfolding find_evento_document
  fase_at_least evento_id fase = do
    e ← find_evento_document evento_id
    raise_if (fase == fase_aguardando_aceite && e.status == "RASCUNHO")
        (unprocessable "evento não está na fase mínima requerida (AGUARDANDO_ACEITE)")

  unfoldable pub is_organizador : String → String → Action Bool
  unfolding find_evento_document
  is_organizador evento_id usuario_id = do
    e ← find_evento_document evento_id
    pure (e.usuario_id_responsavel == usuario_id)

  unfoldable pub count_confirmed : String → String → Action Bool
  count_confirmed evento_id usuario_id = do
    driver env internal
    gets (λ w. any (is_confirmed evento_id usuario_id) w.participants)

  unfoldable pub is_participante_confirmado_ou_organizador : String → String → Action Bool
  unfolding is_organizador count_confirmed
  is_participante_confirmado_ou_organizador evento_id usuario_id = do
    organizador ← is_organizador evento_id usuario_id
    if organizador then pure true else count_confirmed evento_id usuario_id
