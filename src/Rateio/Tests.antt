-- ===== src/Rateio/Tests.antt =====
-- The theorems on splits at concrete inputs.
use backend_go_role_organiza.Prelude.{
  String, map, ◌≡◌, ◌≢◌, refl, false, some, [], ◌∷◌, find, pos, ◌==◌, if◌then◌else◌, List,
}
use backend_go_role_organiza.Payment.Tests.Data.{env, floats, world}
use backend_go_role_organiza.Rateio.Domain.{
  Rateio, RateioDocument, RateioFechamento, StatusRateio, PreviewResult,
}
use backend_go_role_organiza.Rateio.Repository.{
  is_rateio, rateio_doc_from_domain, save_rateio, find_rateio,
}
use backend_go_role_organiza.Rateio.UseCases.{
  FecharParticipanteInput, fechar_rateio, preview_rateio,
}
use backend_go_role_organiza.Rateio.Requests.{RateioRequest, serve_rateios, deletes_rateio}
use backend_go_role_organiza.Rateio.Closing.{closed_rateio_frozen, closes_once}
use backend_go_role_organiza.Rateio.ReadBack.{
  stored_part, saved_rateio_read_back, has_shares, preview_of_stored,
}
use backend_go_role_organiza.World.{
  World, ok, ◌>>=◌, driver, gets, or_raise, pure, attempt, time_now, new_uuid, uuid_binary,
  new_object_id, modify,
}

abbrev stored : RateioDocument
stored = record {
  id = "r1";
  evento_id = "e1";
  usuario_id_responsavel = "u1";
  nome = "Jantar";
  tipo_cobranca = "ITENS";
  valor_rateado = pos 300;
  status = "ATIVO";
  pendente_recalculo = false;
  criado_em = 1;
  atualizado_em = 1;
}

abbrev closed : RateioDocument
closed = record stored { status = "CANCELADO" }

abbrev open_world : World
open_world = record world { rateios = stored ∷ [] }

abbrev closed_world : World
closed_world = record world { rateios = closed ∷ [] }

abbrev share : FecharParticipanteInput
share = record { usuario_id = "u2"; valor = 300; percentual = 100 }

closed_rateio_frozen_example :
    let rs = RateioRequest.close "r1" "u1" [] ∷ [] in
    find (is_rateio "r1") (serve_rateios env rs closed_world).rateios ≡ some closed
unfolding deletes_rateio
closed_rateio_frozen_example =
    closed_rateio_frozen env (RateioRequest.close "r1" "u1" [] ∷ []) "r1" closed_world closed refl
      refl refl

-- The owner lists the closings and reads the split in between.
closes_once_example :
    let rs : List RateioRequest =
      RateioRequest.closings "r1" "u1" ∷ RateioRequest.get "r1" "u1" ∷ [] in
    let w' = serve_rateios env rs (fechar_rateio env "r1" "u1" [] open_world).1 in
    ((g : RateioFechamento) → (fechar_rateio env "r1" "u1" (share ∷ []) w').0 ≢ ok g)
    × ((fechar_rateio env "r1" "u1" (share ∷ []) w').1.fechamentos ≡ w'.fechamentos)
unfolding deletes_rateio fechar_rateio ◌>>=◌ driver gets or_raise pure attempt time_now
    new_object_id modify
closes_once_example =
    closes_once env env env (RateioRequest.closings "r1" "u1" ∷ RateioRequest.get "r1" "u1" ∷ [])
      "r1" "u1" "u1" [] (share ∷ []) open_world _ refl refl

abbrev dinner : Rateio
dinner = record {
  id = "uuid";
  evento_id = "e1";
  usuario_id = "u1";
  tipo = "ITENS";
  status = StatusRateio.aberto;
  descricao = "Jantar";
  valor_total = 300;
  numero_participantes = pos 3;
  itens = [];
  criado_em = 1;
  updated_at = 1;
}

saved_rateio_read_back_example :
    (find_rateio env "uuid" (save_rateio env dinner world).1).0 ≡ ok (stored_part env dinner)
unfolding save_rateio rateio_doc_from_domain uuid_binary ◌>>=◌ new_uuid time_now driver modify pure
saved_rateio_read_back_example = saved_rateio_read_back env dinner dinner world refl refl refl refl

abbrev preview : PreviewResult
preview = record {
  rateio_id = "r1";
  total_geral = 0;
  participantes = record { usuario_id = "u2"; valor = 0; percentual = 2 } ∷ [];
}

preview_of_stored_example :
    (◌≢◌ {A = List String} ("u2" ∷ []) [])
    × (d : RateioDocument) × (find (is_rateio "r1") open_world.rateios ≡ some d)
    × (map (λ x. x.usuario_id) preview.participantes
        ≡ (if has_shares d.tipo_cobranca then "u2" ∷ [] else []))
    × (0 ≡ (if d.tipo_cobranca == "ITENS" then 0 else floats.of_int64 d.valor_rateado))
unfolding preview_rateio ◌>>=◌ driver gets or_raise pure
preview_of_stored_example = preview_of_stored env "r1" "u1" ("u2" ∷ []) open_world preview refl
