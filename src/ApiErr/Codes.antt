-- ===== src/ApiErr/Codes.antt =====
-- The machine-readable codes of pkg/apierr/apierr.go.
pub data Code : Type 0 where
  not_found unauthorized forbidden conflict bad_request unprocessable internal_server
        service_unavailable :
      Code
