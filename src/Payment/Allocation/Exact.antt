-- ===== src/Payment/Allocation/Exact.antt =====
-- The shares of an installment add up to its amount, to the cent.
use backend_go_role_organiza.Prelude.{
  ℕ, zero, suc, ◌+◌, ◌<◌, ◌%◌, ◌≡◌, refl, List, [], ◌∷◌, length, ℤ, pos, add64, sub64, pattern64,
  IsInt64, int64_laws, pattern64-add64, pattern64-sub64, add64-IsInt64, eq_of_pattern64,
  pattern64-zero, eqb_ℤ, eqb_ℤ→eq, ap, Bool-cases, inl, inr, arith,
}
use Prim.Native.Nat.{◌^◌}
use backend_go_role_organiza.Payment.Domain.{PaymentInstallment}
use backend_go_role_organiza.World.{FloatOps}
use backend_go_role_organiza.Payment.Allocation.Shares.{
  Share, raw_shares, total_cents, allocated, largest, add_at, settle_remainder, shares,
}

-- The sum of the shares' bit patterns.
pattern_sum : List Share → ℕ
pattern_sum [] = 0
pattern_sum (s ∷ ss) = pattern64 s.cents + pattern_sum ss

pattern64-allocated :
    (acc : ℤ) (ss : List Share)
    → pattern64 (allocated acc ss) ≡ (pattern64 acc + pattern_sum ss) % 2 ^ 64
unfolding allocated pattern_sum
pattern64-allocated acc [] = omega int64_laws
pattern64-allocated acc (s ∷ ss) =
    omega (int64_laws, pattern64-allocated (add64 acc s.cents) ss, pattern64-add64 acc s.cents)

pattern_sum-add_at :
    (i : ℕ) (r : ℤ) (ss : List Share)
    → i < length ss
    → pattern_sum (add_at i r ss) % 2 ^ 64 ≡ (pattern_sum ss + pattern64 r) % 2 ^ 64
unfolding add_at pattern_sum
pattern_sum-add_at i r [] h = elim h [ ]
pattern_sum-add_at zero r (s ∷ ss) h = omega (int64_laws, pattern64-add64 s.cents r)
pattern_sum-add_at (suc i) r (s ∷ ss) h =
    omega (int64_laws, pattern_sum-add_at i r ss (omega arith))

-- The index stays one of those seen so far.
largest-lt :
    (i idx : ℕ) (c : ℤ) (ls : List PaymentInstallment)
    → idx < i + length ls
    → largest i idx c ls < i + length ls
unfolding largest
largest-lt i idx c [] h = h
largest-lt i idx c (l ∷ ls) h =
    ground (arith, largest-lt (i + 1) i l.amount_cents ls, largest-lt (i + 1) idx c ls)

length-raw_shares :
    (f : FloatOps) (a t : ℤ) (ls : List PaymentInstallment)
    → length (raw_shares f a t ls) ≡ length ls
unfolding raw_shares
length-raw_shares f a t [] = refl
length-raw_shares f a t (l ∷ ls) = omega (arith, length-raw_shares f a t ls)

allocated-IsInt64 : (acc : ℤ) (ss : List Share) → IsInt64 acc → IsInt64 (allocated acc ss)
unfolding allocated
allocated-IsInt64 acc [] h = h
allocated-IsInt64 acc (s ∷ ss) h =
    allocated-IsInt64 (add64 acc s.cents) ss (add64-IsInt64 acc s.cents)

-- Adding what is missing to any one share makes the sum right.
allocated-add_at :
    (amount : ℤ) (k : ℕ) (ss : List Share)
    → k < length ss
    → IsInt64 amount
    → allocated (pos 0) (add_at k (sub64 amount (allocated (pos 0) ss)) ss) ≡ amount
allocated-add_at amount k ss h a =
    let r = sub64 amount (allocated (pos 0) ss) in
    eq_of_pattern64 _ _ (allocated-IsInt64 (pos 0) _ (omega arith)) a (
      omega (
        int64_laws,
        pattern64-allocated (pos 0) ss,
        pattern64-allocated (pos 0) (add_at k r ss),
        pattern_sum-add_at k r ss h,
        pattern64-sub64 amount (allocated (pos 0) ss),
        pattern64-zero,
      ))

eq_of_sub64-zero : (a b : ℤ) → IsInt64 a → IsInt64 b → sub64 a b ≡ pos 0 → b ≡ a
eq_of_sub64-zero a b ha hb e =
    eq_of_pattern64 _ _ hb ha
      (omega (int64_laws, pattern64-sub64 a b, ap pattern64 e, pattern64-zero))

allocated-settle_remainder :
    (amount : ℤ) (k : ℕ) (ss : List Share)
    → k < length ss
    → IsInt64 amount
    → allocated (pos 0) (settle_remainder k (sub64 amount (allocated (pos 0) ss)) ss) ≡ amount
unfolding settle_remainder
allocated-settle_remainder amount k ss h a =
    elim (Bool-cases (eqb_ℤ (sub64 amount (allocated (pos 0) ss)) (pos 0))) [
      | inl even ↦ rw even (
          eq_of_sub64-zero amount _ a (allocated-IsInt64 (pos 0) ss (omega arith))
            (eqb_ℤ→eq _ _ even))
      | inr odd ↦ rw odd (allocated-add_at amount k ss h a)
    ]

-- However the proportions are rounded, the shares among one or more liabilities add up to the
-- installment's amount exactly.
pub shares_add_up :
    (f : FloatOps) (amount : ℤ) (l : PaymentInstallment) (ls : List PaymentInstallment)
    → IsInt64 amount
    → allocated (pos 0) (shares f amount (l ∷ ls)) ≡ amount
unfolding shares
shares_add_up f amount l ls h =
    allocated-settle_remainder amount (largest 0 0 (pos 0) (l ∷ ls))
      (raw_shares f amount (total_cents (pos 0) (l ∷ ls)) (l ∷ ls))
      (omega (
        arith,
        largest-lt 0 0 (pos 0) (l ∷ ls),
        length-raw_shares f amount (total_cents (pos 0) (l ∷ ls)) (l ∷ ls),
      ))
      h
