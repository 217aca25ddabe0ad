-- ===== src/Finance/Pages.antt =====
-- The first page of a statement.
use Prim.Native.Nat.{◌^◌}
use backend_go_role_organiza.Prelude.{
  ℕ, String, Option, List, ◌+◌, ◌*◌, ◌%◌, ◌-◌, ◌≤◌, ◌≡◌, ◌≢◌, sym, ap, ◌∙◌, true, false, ℤ, pos,
  negsuc, mul64, sub64, pos_part, pattern64, signed64, sub_ℕ, arith,
}
use backend_go_role_organiza.Finance.Domain.{LedgerStatementPage, StatementEntry}
use backend_go_role_organiza.Finance.Repository.{find_page, find_statement}
use backend_go_role_organiza.Finance.UseCases.{
  GetLedgerStatementInput, clamp_size, clamp_page, get_ledger_statement,
}
use backend_go_role_organiza.World.{World, Env, ok, raise_if}
use backend_go_role_organiza.World.Inversion.{bind-eq-ok, context-eq-ok, raise_if-skips}

pattern64-small : (s : ℕ) → s ≤ 100 → pattern64 (pos s) ≡ s
unfolding pattern64
pattern64-small s k = omega arith

wrapped_product : (s : ℕ) → 1 ≤ s → s ≤ 100 → ((2 ^ 64 - 1) * s + 2 ^ 63) % 2 ^ 64 ≡ 2 ^ 63 - s
wrapped_product s h k = omega arith

sub_ℕ-below : (n s : ℕ) → 1 ≤ s → s ≤ n → sub_ℕ (n - s) n ≡ negsuc (s - 1)
sub_ℕ-below n s h k = ground arith

first_skip : (s : ℕ) → 1 ≤ s → s ≤ 100 → mul64 (sub64 (pos 0) (pos 1)) (pos s) ≡ negsuc (s - 1)
unfolding mul64 sub64 pattern64 signed64
first_skip s h k =
    ap (λ n. signed64 ((2 ^ 64 - 1) * n)) (pattern64-small s k)
    ∙ ap (λ n. sub_ℕ n (2 ^ 63)) (wrapped_product s h k)
    ∙ sub_ℕ-below (2 ^ 63) s h (omega arith)

clamp_size-bounds : (s : ℤ) → (1 ≤ clamp_size s) × (clamp_size s ≤ 100)
unfolding clamp_size
clamp_size-bounds s = ground arith

module _ (env : Env) where
  -- A page of rows is only read behind a skip that the server takes.
  find_page-skips :
      {A : Type 0} (skip : ℤ) (size : ℕ) (rows : World → List A) (w : World) (xs : List A)
      → (find_page env skip size rows w).0 ≡ ok xs
      → env.refuses_skip skip ≡ false
  unfolding find_page
  find_page-skips skip size rows w xs e =
      let (_, _, rest) = bind-eq-ok _ _ w xs e in
      let (_, passed, _) = bind-eq-ok (raise_if (env.refuses_skip skip) _) _ _ xs rest in
      raise_if-skips (env.refuses_skip skip) _ _ passed

  find_statement-skips :
      (event_id : String) (t : Option String) (from to : Option ℕ) (page size : ℕ) (w : World)
      (p : List StatementEntry × ℕ)
      → (find_statement env event_id t from to page size w).0 ≡ ok p
      → env.refuses_skip (mul64 (sub64 (pos page) (pos 1)) (pos size)) ≡ false
  unfolding find_statement
  find_statement-skips event_id t from to page size w p e =
      let (_, _, rest) = bind-eq-ok _ _ w p e in
      let (_, _, after) = bind-eq-ok _ _ _ p rest in
      let (_, _, rest') = bind-eq-ok _ _ _ p after in
      let (xs, got, _) = bind-eq-ok (find_page env _ size _) _ _ p rest' in
      find_page-skips _ size _ _ xs got

-- Where the server refuses every negative skip, as MongoDB does, no request for the first page of a
-- statement, page 0 as the callers count, or for a page below it is ever answered with a page, whatever
-- the database holds.
pub first_page_refused :
    (env : Env) (input : GetLedgerStatementInput) (w : World)
    → ((n : ℕ) → env.refuses_skip (negsuc n) ≡ true)
    → pos_part input.page ≡ 0
    → (p : LedgerStatementPage) → (get_ledger_statement env input w).0 ≢ ok p
unfolding get_ledger_statement
first_page_refused env input w refuses first p e =
    let (_, _, rest) = bind-eq-ok _ _ w p e in
    let (_, got, _) = bind-eq-ok _ _ _ p rest in
    let passed =
      find_statement-skips env _ _ _ _ (clamp_page input.page) (clamp_size input.size) _ _
        (context-eq-ok _ _ _ _ got) in
    let (low, high) = clamp_size-bounds input.size in
    let skip : mul64 (sub64 (pos (clamp_page input.page)) (pos 1)) (pos (clamp_size input.size))
        ≡ negsuc (clamp_size input.size - 1) =
      rw first (first_skip (clamp_size input.size) low high) in
    ground (arith, sym passed ∙ ap env.refuses_skip skip ∙ refuses (clamp_size input.size - 1))
