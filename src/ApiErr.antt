-- ===== src/ApiErr.antt =====
-- pkg/apierr/apierr.go: typed API errors, and the errors that wrap them.
mod Codes
pub use Codes.{Code}
use backend_go_role_organiza.Prelude.{ℕ, String, Bool, true, false, Option, none, some}

-- A message: a text, or the arguments of `fmt.Sprintf("%s with id %q not found", resource, id)`.
pub data Message : Type 0 where
  text : String → Message
  missing : String → String → Message

-- `APIError`; `Details` is the unread payload of one constructor and is left out.
pub record ApiError : Type 0 where
  pub status : ℕ
  pub code : Code
  pub message : Message

-- A Go `error`: a typed error, `fmt.Errorf("…: %w", err)`, or a value of `errors.New`.
pub data Error : Type 0 where
  api : ApiError → Error
  wrapped : String → Error → Error
  plain : String → Error
  already_processed : Error
  transaction_already_terminal : Error

unfoldable pub not_found : String → String → Error
not_found resource id =
    api (record { status = 404; code = Code.not_found; message = missing resource id })

unfoldable pub unauthorized : String → Error
unauthorized msg = api (record { status = 401; code = Code.unauthorized; message = text msg })

unfoldable pub forbidden : String → Error
forbidden msg = api (record { status = 403; code = Code.forbidden; message = text msg })

unfoldable pub conflict : String → Error
conflict msg = api (record { status = 409; code = Code.conflict; message = text msg })

unfoldable pub bad_request : String → Error
bad_request msg = api (record { status = 400; code = Code.bad_request; message = text msg })

unfoldable pub unprocessable : String → Error
unprocessable msg = api (record { status = 422; code = Code.unprocessable; message = text msg })

unfoldable pub internal : String → Error
internal msg = api (record { status = 500; code = Code.internal_server; message = text msg })

-- `errors.As(err, &apiErr)`
unfoldable pub as_api : Error → Option ApiError
as_api (api e) = some e
as_api (wrapped _ e) = as_api e
as_api (plain _) = none
as_api already_processed = none
as_api transaction_already_terminal = none

is_not_found_code : Code → Bool
is_not_found_code Code.not_found = true
is_not_found_code _ = false

unfoldable pub is_not_found : Error → Bool
unfolding as_api is_not_found_code
is_not_found e = elim (as_api e) [ none ↦ false | some a ↦ is_not_found_code a.code ]

-- `errors.Is(err, portout.ErrAlreadyProcessed)`
unfoldable pub is_already_processed : Error → Bool
is_already_processed (api _) = false
is_already_processed (wrapped _ e) = is_already_processed e
is_already_processed (plain _) = false
is_already_processed already_processed = true
is_already_processed transaction_already_terminal = false
