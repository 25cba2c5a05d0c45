-- ===== src/Consumer/Errors.antt =====
-- space/src/consumer-errors.ts: the status and the code that a consumer sees for an error. Errors are
-- told apart by their classes.
use xtap_pool.Base.{Option, Text, eqb, if◌then◌else◌, lit, none, some, ℕ, ◌||◌}

pub record HttpError : Type 0 where
  pub status : ℕ
  pub code : Text
  pub message : Text
  pub recovery : Option Text

-- What may be thrown, by class; `other` is every other value.
pub data Raised : Type 0 where
  http : HttpError → Raised
  invalid_cursor invalid_shape oversized_source read_limit other : Raised
  contract_changed cursor_expired source_not_ready bootstrap_required : Text → Raised

abbrev plain : ℕ → Text → Text → HttpError
plain status code message = record {
  status = status;
  code = code;
  message = message;
  recovery = none;
}

abbrev bootstrap_again : Option Text
bootstrap_again = some (lit "explicit_bootstrap")

-- `consumerError`; the recovery is its action.
unfoldable pub consumer_error : Raised → HttpError
consumer_error (http e) = e
consumer_error invalid_cursor =
    plain 400 (lit "invalid_request") (lit "Invalid consumer query or cursor.")
consumer_error invalid_shape =
    plain 400 (lit "invalid_request") (lit "Invalid consumer query or cursor.")
consumer_error (contract_changed m) = record {
  status = 409;
  code = lit "contract_changed";
  message = m;
  recovery = bootstrap_again;
}
consumer_error (cursor_expired m) = record {
  status = 410;
  code = lit "cursor_expired";
  message = m;
  recovery = bootstrap_again;
}
consumer_error (source_not_ready m) = plain 503 (lit "source_not_ready") m
consumer_error (bootstrap_required m) = plain 503 (lit "projection_unavailable") m
consumer_error oversized_source =
    plain 413 (lit "source_item_too_large") (lit "A complete source item exceeds the read bound.")
consumer_error read_limit =
    plain 413 (lit "source_item_too_large") (lit "A complete source item exceeds the read bound.")
consumer_error other =
    plain 502 (lit "source_unavailable")
      (lit "The verified source could not be read. Retry the same cursor.")

pub record Response : Type 0 where
  pub body : HttpError
  pub retry_after : Option ℕ

-- `consumerErrorResponse`; every response also says `Cache-Control: no-store`.
unfoldable pub consumer_error_response : Raised → Response
unfolding consumer_error
consumer_error_response raised =
    let failure = consumer_error raised in
    record {
      body = failure;
      retry_after = if eqb failure.status 429 || eqb failure.status 503 then some 5 else none;
    }
