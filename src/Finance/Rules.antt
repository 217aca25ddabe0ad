-- ===== src/Finance/Rules.antt =====
-- `CalculateProgress` and `ValidatePixKey` of internal/domain/finance/entities.go.
use Prim.Native.String.{len}
use backend_go_role_organiza.Prelude.{
  Option, none, some, join, not, String, ℕ, Bool, true, false, ◌&&◌, ◌||◌, [], ◌∷◌, ℤ, pos, leb,
  eqb, eqb_ℤ, upper_in, codes, if◌then◌else◌, List,
}
use backend_go_role_organiza.Payment.Domain.{Float64}
use backend_go_role_organiza.World.{FloatOps}

unfoldable pub calculate_progress : FloatOps → ℤ → ℤ → Float64
calculate_progress floats collected goal =
    if eqb_ℤ goal (pos 0)
    then 0
    else floats.div
        (floats.round (
          floats.mul
            (floats.mul (floats.div (floats.of_int64 collected) (floats.of_int64 goal))
              (floats.of_int64 (pos 100)))
            (floats.of_int64 (pos 10_000))))
        (floats.of_int64 (pos 10_000))

unfoldable pub all_digits : List ℕ → Bool
all_digits [] = true
all_digits (c ∷ cs) = leb b'0' c && leb c b'9' && all_digits cs

unfoldable pub starts_with : List ℕ → List ℕ → Bool
starts_with s [] = true
starts_with [] (p ∷ ps) = false
starts_with (c ∷ cs) (p ∷ ps) = eqb c p && starts_with cs ps

unfoldable pub has_code : ℕ → List ℕ → Bool
has_code c [] = false
has_code c (d ∷ ds) = eqb c d || has_code c ds

-- A key of `n` digits.
unfoldable pub digits_error : (ℤ → String) → String → ℕ → String → Option String
unfolding codes all_digits
digits_error decimal kind n key =
    if not (eqb (len key) n)
    then some (
        join (
          "chave PIX "
          ∷ kind
          ∷ " deve ter "
          ∷ decimal (pos n)
          ∷ " dígitos, recebido "
          ∷ decimal (pos (len key))
          ∷ []))
    else if not (all_digits (codes key))
    then some (join ("chave PIX " ∷ kind ∷ " deve conter apenas dígitos" ∷ []))
    else none

-- The error of `ValidatePixKey`, if any. Lengths are counted in bytes.
unfoldable pub pix_key_error : (ℤ → String) → String → String → Option String
unfolding codes upper_in digits_error starts_with has_code
pix_key_error decimal pix_type key =
    if upper_in pix_type ("CPF" ∷ [])
    then digits_error decimal "CPF" 11 key
    else if upper_in pix_type ("CNPJ" ∷ [])
    then digits_error decimal "CNPJ" 14 key
    else if upper_in pix_type ("PHONE" ∷ [])
    then (if starts_with (codes key) (codes "+55")
        then none
        else some "chave PIX telefone deve começar com +55")
    else if upper_in pix_type ("EMAIL" ∷ [])
    then (if has_code b'@' (codes key) then none else some "chave PIX e-mail deve conter @")
    else if upper_in pix_type ("RANDOM" ∷ [])
    then (if eqb (len key) 36
        then none
        else some (
            join (
              "chave PIX aleatória deve ter 36 caracteres (formato UUID), recebido "
              ∷ decimal (pos (len key))
              ∷ [])))
    else some (join ("tipo de chave PIX inválido: " ∷ pix_type ∷ []))
