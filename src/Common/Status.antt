-- ===== src/Common/Status.antt =====
-- cpp/common/status.h and cpp/common/diagnostic.h.
use technical_doc_parser.Prelude.{Bool, true, false, Text, [], List}
use technical_doc_parser.Prelude.Int.{ℤ}

pub record Status : Type 0 where
  pub ok_status : Bool
  pub code : Text
  pub message : Text
  pub stage : Text
  pub retryable : Bool

-- `Status::ok()`
abbrev pub ok : Status
ok = record { ok_status = true; code = []; message = []; stage = []; retryable = false }

-- `Status::error`
abbrev pub error : Text → Text → Text → Bool → Status
error code message stage retryable = record {
  ok_status = false;
  code = code;
  message = message;
  stage = stage;
  retryable = retryable;
}

pub record Diagnostic : Type 0 where
  pub code : Text
  pub message : Text
  pub stage : Text
  pub page_number : ℤ
  pub details : List (Text × Text)
