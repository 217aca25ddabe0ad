-- ===== src/Payment/Reconcile/Agreement.antt =====
-- The webhook (handle_payment_callback.go) and the reconciliation (reconcile_psp.go) read the same
-- provider statuses.
use backend_go_role_organiza.World.{World}
