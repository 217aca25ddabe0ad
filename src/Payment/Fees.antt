-- ===== src/Payment/Fees.antt =====
-- internal/domain/payment/fee_policy.go and internal/usecase/payment/fee_policy_service.go: the fee
-- policy of an event and the fees of a charge.
use backend_go_role_organiza.Prelude.{
  String, ◌==◌, Bool, false, ◌||◌, not, find, ℤ, pos, add64, sub64, is_set, eqb, join, [], ◌∷◌,
  if◌then◌else◌,
}
use backend_go_role_organiza.ApiErr.{Error, internal, not_found, api, wrapped}
use backend_go_role_organiza.Payment.Domain.{
  Float64, FeePolicySnapshot, FeeCalculationResult, EventoConfigPagamento,
}
use backend_go_role_organiza.World.{
  Env, FloatOps, Action, pure, raise, gets, attempt, or_raise, ◌>>=◌, ◌>>◌, either, driver,
}

-- 0.0, 1.99 and 100.0
abbrev zero_percent : Float64
zero_percent = 0

abbrev psp_percent : Float64
psp_percent = 0x3fffd70a3d70a3d7

abbrev pub hundred : Float64
hundred = 0x4059000000000000

-- `int64(math.Round(float64(grossCents) * percent / 100.0))`
unfoldable pub percent_fee : FloatOps → ℤ → Float64 → ℤ
percent_fee f gross percent = f.round_to_int64 (f.div (f.mul (f.of_int64 gross) percent) hundred)

unfoldable pub calculate_fees : FloatOps → ℤ → FeePolicySnapshot → FeeCalculationResult
calculate_fees f gross s =
    let psp = add64 (percent_fee f gross s.psp_fee_percent) s.psp_fee_fixed_cents in
    let platform = add64 (percent_fee f gross s.platform_fee_percent) s.platform_fee_fixed_cents in
    record {
      gross_amount_cents = gross;
      psp_fee_applied_cents = psp;
      platform_fee_applied_cents = platform;
      net_amount_cents = sub64 (sub64 gross psp) platform;
    }

unfoldable pub global_policy : FeePolicySnapshot
global_policy = record {
  fee_policy_source = "GLOBAL";
  platform_fee_percent = zero_percent;
  platform_fee_fixed_cents = pos 0;
  psp_fee_percent = psp_percent;
  psp_fee_fixed_cents = pos 0;
  version = "global-v1";
}

unfoldable pub has_custom_policy : FloatOps → EventoConfigPagamento → Bool
has_custom_policy f c =
    is_set c.fee_policy_version
    || (not (f.is_zero c.platform_fee_percent) || not (f.is_zero c.psp_fee_percent))

unfoldable pub event_policy : String → EventoConfigPagamento → FeePolicySnapshot
event_policy event_id c = record {
  fee_policy_source = join ("EVENT:" ∷ event_id ∷ []);
  platform_fee_percent = c.platform_fee_percent;
  platform_fee_fixed_cents = c.platform_fee_fixed_cents;
  psp_fee_percent = c.psp_fee_percent;
  psp_fee_fixed_cents = c.psp_fee_fixed_cents;
  version = if is_set c.fee_policy_version then c.fee_policy_version else "event-v1";
}

unfoldable pub choose_policy : FloatOps → String → EventoConfigPagamento → FeePolicySnapshot
unfolding has_custom_policy event_policy
choose_policy f event_id c =
    if has_custom_policy f c then event_policy event_id c else global_policy

-- `ae, ok := err.(*apierr.APIError); ok && ae.Status == 404`
unfoldable pub is_404 : Error → Bool
is_404 (api a) = eqb a.status 404
is_404 _ = false

module _ (env : Env) where
  -- `EventoConfigPagamentoRepository.FindByEventoID`
  unfoldable pub find_by_evento_id : String → Action EventoConfigPagamento
  find_by_evento_id id = do
    driver env internal
    c ← gets (λ w. find (λ c. c.evento_id == id) w.fee_configs)
    or_raise c (not_found "config_pagamento" id)

  unfoldable pub resolve_snapshot : String → Action FeePolicySnapshot
  unfolding find_by_evento_id choose_policy is_404
  resolve_snapshot event_id = do
    answer ← attempt (find_by_evento_id event_id)
    either answer (λ c. pure (choose_policy env.floats event_id c))
        (λ e.
          if is_404 e
          then pure global_policy
          else raise (wrapped (join ("fee policy: find event config for " ∷ event_id ∷ [])) e))
