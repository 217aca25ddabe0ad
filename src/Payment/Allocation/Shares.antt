-- ===== src/Payment/Allocation/Shares.antt =====
-- The arithmetic of `allocateProportional`: one share for each liability, the rounding remainder on
-- the largest.
use backend_go_role_organiza.Prelude.{
  ℕ, zero, suc, ◌+◌, String, List, [], ◌∷◌, ℤ, pos, ltb_ℤ, eqb_ℤ, add64, sub64, if◌then◌else◌,
}
use backend_go_role_organiza.Payment.Domain.{PaymentInstallment, Float64}
use backend_go_role_organiza.World.{FloatOps}

-- The local type `alloc`.
pub record Share : Type 0 where
  pub liability_id : String
  pub cents : ℤ
  pub pct : Float64

-- 100.0
abbrev pub one_hundred : Float64
one_hundred = 0x4059000000000000

unfoldable pub total_cents : ℤ → List PaymentInstallment → ℤ
total_cents acc [] = acc
total_cents acc (l ∷ ls) = total_cents (add64 acc l.amount_cents) ls

unfoldable pub share : FloatOps → ℤ → ℤ → PaymentInstallment → Share
share f amount total l =
    let proportion = f.div (f.of_int64 l.amount_cents) (f.of_int64 total) in
    record {
      liability_id = l.liability_id;
      cents = f.round_to_int64 (f.mul (f.of_int64 amount) proportion);
      pct = f.mul proportion one_hundred;
    }

unfoldable pub raw_shares : FloatOps → ℤ → ℤ → List PaymentInstallment → List Share
unfolding share
raw_shares f amount total [] = []
raw_shares f amount total (l ∷ ls) = share f amount total l ∷ raw_shares f amount total ls

-- `allocated += c`, over the shares.
unfoldable pub allocated : ℤ → List Share → ℤ
allocated acc [] = acc
allocated acc (s ∷ ss) = allocated (add64 acc s.cents) ss

-- The loop over the index `i` with `largestIdx` and `largestCents`.
unfoldable pub largest : ℕ → ℕ → ℤ → List PaymentInstallment → ℕ
largest i idx cents [] = idx
largest i idx cents (l ∷ ls) =
    let bigger = ltb_ℤ cents l.amount_cents in
    largest (i + 1) (if bigger then i else idx) (if bigger then l.amount_cents else cents) ls

unfoldable pub add_at : ℕ → ℤ → List Share → List Share
add_at i r [] = []
add_at zero r (s ∷ ss) = record s { cents = add64 s.cents r } ∷ ss
add_at (suc i) r (s ∷ ss) = s ∷ add_at i r ss

-- "Add rounding remainder to the largest liability", when there is one.
unfoldable pub settle_remainder : ℕ → ℤ → List Share → List Share
unfolding add_at
settle_remainder i r ss = if eqb_ℤ r (pos 0) then ss else add_at i r ss

unfoldable pub shares : FloatOps → ℤ → List PaymentInstallment → List Share
unfolding total_cents raw_shares allocated largest settle_remainder
shares f amount ls =
    let raw = raw_shares f amount (total_cents (pos 0) ls) ls in
    settle_remainder (largest 0 0 (pos 0) ls) (sub64 amount (allocated (pos 0) raw)) raw
