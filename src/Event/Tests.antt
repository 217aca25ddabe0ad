-- ===== src/Event/Tests.antt =====
-- The theorems on events and drafts at concrete inputs.
use backend_go_role_organiza.Prelude.{
  String, List, suc, ◌*◌, ◌≡◌, ◌≢◌, refl, none, some, [], ◌∷◌, find, pos, arith,
}
use backend_go_role_organiza.Payment.Tests.Data.{env, world}
use backend_go_role_organiza.Event.Domain.{Evento, EventoDraft, EventoDraftDocument}
use backend_go_role_organiza.Event.Drafts.{
  is_draft, save_draft, find_draft, stored_draft, draft_to_doc,
}
use backend_go_role_organiza.Event.Eventos.{evento_from_doc, new_evento_doc}
use backend_go_role_organiza.Event.UseCases.{
  UpsertDraftInput, UpdateEventoInput, is_stale, empty_draft, update_draft, publish_draft,
  published, update_evento,
}
use backend_go_role_organiza.Event.ReadBack.{cut_times, saved_draft_read_back}
use backend_go_role_organiza.Event.Stale.{stale_update_refused}
use backend_go_role_organiza.Event.Newer.{update_all}
use backend_go_role_organiza.Event.Publishing.{
  event_of_draft, published_event, limits_of, update_keeps_limits,
}
use backend_go_role_organiza.World.{
  World, Env, ok, ◌>>=◌, new_object_id, new_uuid, time_now, driver, gets, or_raise, modify, pure,
  ignore,
}

-- A clock past 0, to the millisecond.
abbrev late : Env
late = record env { now = λ n. suc n * 1_000_000 }

abbrev blank : EventoDraft
blank = record (empty_draft "u1" 1_500_000) { id = "oid" }

abbrev kept : EventoDraft
kept = record blank { updated_at = 2_000_000 }

saved_draft_read_back_example :
    (kept ≡ record blank { id = kept.id; criado_em = kept.criado_em; updated_at = kept.updated_at })
    × ((find_draft late "oid" (save_draft late blank world).1).0 ≡ ok (cut_times late kept))
unfolding save_draft ◌>>=◌ new_object_id time_now driver modify pure
saved_draft_read_back_example = saved_draft_read_back late blank kept world refl refl refl refl

abbrev drafts_world : World
unfolding draft_to_doc
drafts_world = record world { drafts = stored_draft "oid" 1 blank ∷ [] }

abbrev nothing : UpsertDraftInput
nothing = record {
  nome = some "Festa";
  tipo = none;
  data_evento = none;
  descricao = none;
  local = none;
  convidados_ids = none;
  politica_convidados = none;
  limite_convidados = none;
  rateios_habilitado = none;
  rateios_itens = none;
  tipo_divisao_rateio = none;
  pagamentos_habilitado = none;
  metodos_pagamento = none;
  prazo_pagamento = none;
  regras_customizadas = none;
  politica_cancelamento = none;
  etapa_atual = none;
  etapas_completas = none;
  last_read_at = none;
}

abbrev stale : UpsertDraftInput
stale = record nothing { last_read_at = some 0 }

abbrev edits : List (String × String × UpsertDraftInput)
edits =
    ("oid", "u1", record nothing { last_read_at = some 5_000_000 }) ∷ ("oid", "u2", nothing) ∷ []

-- The owner edits the draft again, and another user tries to.
stale_update_refused_example :
    let w' = update_all late edits (update_draft late "oid" "u1" nothing drafts_world).1 in
    ((b : EventoDraft) → (update_draft late "oid" "u1" stale w').0 ≢ ok b)
    × ((update_draft late "oid" "u1" stale w').1.drafts ≡ w'.drafts)
unfolding update_draft drafts_world is_stale ◌>>=◌ time_now driver gets or_raise modify pure
stale_update_refused_example =
    stale_update_refused late late late "oid" "u1" "u1" nothing stale 0 edits drafts_world _
      (λ n. ground arith) (λ n. ground arith) refl refl

abbrev party : Evento
unfolding evento_from_doc new_evento_doc
party = evento_from_doc (new_evento_doc "uuid" 3 (published blank 1))

published_event_example :
    (doc : EventoDraftDocument) × (find (is_draft "oid") drafts_world.drafts ≡ some doc)
    × (party ≡ event_of_draft doc party)
unfolding publish_draft drafts_world ◌>>=◌ time_now new_uuid driver gets or_raise modify pure ignore
published_event_example = published_event env "oid" "u1" drafts_world party refl

abbrev limit : UpdateEventoInput
limit = record {
  nome = "";
  tipo = "";
  data_evento = none;
  descricao = "";
  local = "";
  foto_url = "";
  politica_convidados = "";
  limite_convidados = some (pos 10);
  rateios_habilitado = none;
  tipo_divisao_rateio = "";
  pagamentos_habilitado = none;
  metodos_pagamento = [];
  prazo_pagamento = none;
  regras_customizadas = "";
  politica_cancelamento = "";
}

abbrev parties : World
unfolding new_evento_doc
parties = record world { eventos = new_evento_doc "e1" 1 (published blank 1) ∷ [] }

update_keeps_limits_example :
    limits_of (update_evento env "e1" "u1" limit parties).1 ≡ limits_of parties
update_keeps_limits_example = update_keeps_limits env "e1" "u1" limit parties
