-- ===== src/Sdk/Errors.antt =====
-- The errors of the client library (totoggle_go/errors.go, internal/serverapi/fetch.go), and what
-- the client tells its listeners (totoggle_go/metrics.go).
use to_toggle.Prelude.{ℕ, Bool, Text}

pub data Error : Type 0 where
  building_request request_failed authentication decoding : Error
  unexpected_status : ℕ → Error
  not_modified_before_catalog not_started already_shutdown : Error

-- A call of OnRefreshSuccess, OnRefreshFailure or OnEvaluation on each listener that has it.
-- Panics of listeners are discarded by `safelyCall`, and listeners give nothing back.
pub data Notice : Type 0 where
  refresh_success : ℕ → Notice
  refresh_failure : Error → ℕ → Notice
  evaluation : Text → Bool → Notice
