-- ===== src/Rateio/UseCases/Parts.antt =====
-- The inputs and the values that internal/usecase/rateio/rateio.go builds.
use backend_go_role_organiza.Prelude.{
  ℕ, suc, String, ◌==◌, false, ◌||◌, Option, none, some, List, [], ◌∷◌, map, ℤ, pos, length,
  if◌then◌else◌,
}
use backend_go_role_organiza.Payment.Domain.{Float64}
use backend_go_role_organiza.Rateio.Domain.{
  Rateio, RateioItem, RateioFechamento, FechamentoParticipante, PreviewParticipante, StatusRateio,
}
use backend_go_role_organiza.World.{FloatOps, Result, ok, err}

-- An item of `CreateRateioInput` and `UpdateRateioInput`
pub record RateioItemInput : Type 0 where
  pub descricao : String
  pub valor : Float64
  pub quantidade : ℤ

pub record CreateRateioInput : Type 0 where
  pub evento_id : String
  pub usuario_id : String
  pub tipo : String
  pub descricao : String
  pub valor_total : Float64
  pub numero_participantes : ℤ
  pub itens : List RateioItemInput

pub record UpdateRateioInput : Type 0 where
  pub descricao : Option String
  pub valor_total : Option Float64
  pub numero_participantes : Option ℤ
  pub itens : Option (List RateioItemInput)

pub record FecharParticipanteInput : Type 0 where
  pub usuario_id : String
  pub valor : Float64
  pub percentual : Float64

abbrev pub get_or : {A : Type 0} → Option A → A → A
get_or none a = a
get_or (some b) a = b

unfoldable pub new_item : FloatOps → ℕ → RateioItemInput → RateioItem
new_item floats criado_em it = record {
  descricao = it.descricao;
  valor = it.valor;
  quantidade = it.quantidade;
  total = floats.mul it.valor (floats.of_int64 it.quantidade);
  criado_em = criado_em;
  updated_at = criado_em;
}

-- The items of an update have no time of creation.
unfoldable pub updated_item : FloatOps → ℕ → RateioItemInput → RateioItem
unfolding new_item
updated_item floats now it = record (new_item floats now it) { criado_em = 0 }

unfoldable pub items_total : FloatOps → Float64 → List RateioItem → Float64
items_total floats total [] = total
items_total floats total (it ∷ its) = items_total floats (floats.add total it.total) its

unfoldable pub shares_total : FloatOps → Float64 → List FecharParticipanteInput → Float64
shares_total floats total [] = total
shares_total floats total (p ∷ ps) = shares_total floats (floats.add total p.valor) ps

unfoldable pub preview_total : FloatOps → Rateio → Float64
unfolding items_total
preview_total floats r = if r.tipo == "ITENS" then items_total floats 0 r.itens else r.valor_total

unfoldable pub preview_shares :
    FloatOps → String → Float64 → ℤ → List String → List PreviewParticipante
preview_shares floats tipo total n users =
    if tipo == "DIVISAO" || tipo == "ITENS"
    then map
        (λ u. record {
          usuario_id = u;
          valor = floats.div total (floats.of_int64 n);
          percentual = floats.div (floats.of_int64 (pos 100)) (floats.of_int64 n);
        })
        users
    else if tipo == "PERCENTUAL"
    then map
        (λ u. record {
          usuario_id = u;
          valor = floats.mul total (
              floats.div (floats.div (floats.of_int64 (pos 100)) (floats.of_int64 n))
                (floats.of_int64 (pos 100)));
          percentual = floats.div (floats.of_int64 (pos 100)) (floats.of_int64 n);
        })
        users
    else []

unfoldable pub new_participante : FecharParticipanteInput → FechamentoParticipante
new_participante p = record {
  usuario_id = p.usuario_id;
  valor = p.valor;
  percentual = p.percentual;
  pago = false;
  pago_em = none;
}

abbrev pub participant_count : Rateio → List String → ℤ
participant_count r [] = r.numero_participantes
participant_count r (u ∷ us) = pos (suc (length us))

-- `existing, _ := …`: an error reads as no closing.
abbrev pub known : {A : Type 0} → Result (List A) → List A
known (ok xs) = xs
known (err e) = []

-- The fields of the input that are not nil, and the others as they were.
abbrev pub edited : UpdateRateioInput → List RateioItem → ℕ → Rateio → Rateio
edited input itens now r = record r {
  descricao = get_or input.descricao r.descricao;
  valor_total = get_or input.valor_total r.valor_total;
  numero_participantes = get_or input.numero_participantes r.numero_participantes;
  itens = itens;
  updated_at = now;
}

abbrev pub snapshot :
    FloatOps → Rateio → List RateioFechamento → List FecharParticipanteInput → ℕ → RateioFechamento
unfolding shares_total new_participante
snapshot floats r existing participantes now = record {
  id = "";
  rateio_id = r.id;
  evento_id = r.evento_id;
  versao = suc (length existing);
  valor_total = shares_total floats 0 participantes;
  participantes = map new_participante participantes;
  criado_em = now;
}

abbrev pub closed_rateio : ℕ → Rateio → Rateio
closed_rateio now r = record r { status = StatusRateio.fechado; updated_at = now }

abbrev pub new_rateio : FloatOps → CreateRateioInput → ℕ → Rateio
unfolding new_item
new_rateio floats input now = record {
  id = "";
  evento_id = input.evento_id;
  usuario_id = input.usuario_id;
  tipo = input.tipo;
  status = StatusRateio.aberto;
  descricao = input.descricao;
  valor_total = input.valor_total;
  numero_participantes = input.numero_participantes;
  itens = map (new_item floats now) input.itens;
  criado_em = now;
  updated_at = now;
}
