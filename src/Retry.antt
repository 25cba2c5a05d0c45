-- ===== src/Retry.antt =====
-- space/src/hub-read-retry.ts: bounded retries of a read from the Hub. A call of the operation is
-- the function from the attempt's number to what that call returns or throws. The waits are listed
-- by the number of the attempt that failed.
pub mod Bound
mod Examples
use xtap_pool.Base.{
  Bool, List, Option, Result, Text, [], any, contains, eqb, err, false, if◌then◌else◌, leb, lit,
  nat_eq, none, not, ok, some, suc, take, text_beq, text_eq, true, zero, ℕ, ◌&&◌, ◌++◌, ◌+◌, ◌||◌,
  ◌∷◌,
}

-- What the retry looks at in an error or in one of its causes: whether it is an `Error`, its name,
-- and its code where that is a string.
pub record Cause : Type 0 where
  pub is_error : Bool
  pub name : Text
  pub code : Option Text

pub data Kind : Type 0 where
  hub_api : ℕ → Kind
  type_error : Text → Kind
  invalid_format other : Kind

-- A thrown value: the error itself, then its causes in order.
pub record Failure : Type 0 where
  pub kind : Kind
  pub chain : List Cause

pub data Thrown : Type 0 where
  failure : Failure → Thrown
  exhausted : Thrown

abbrev pub hub_read_attempts : ℕ
hub_read_attempts = 3

abbrev pub transient_network_codes : List Text
transient_network_codes =
    lit "EAI_AGAIN"
    ∷ lit "ECONNREFUSED"
    ∷ lit "ECONNRESET"
    ∷ lit "EHOSTUNREACH"
    ∷ lit "ENETRESET"
    ∷ lit "ENETUNREACH"
    ∷ lit "ESOCKETTIMEDOUT"
    ∷ lit "ETIMEDOUT"
    ∷ lit "UND_ERR_BODY_TIMEOUT"
    ∷ lit "UND_ERR_CONNECT_TIMEOUT"
    ∷ lit "UND_ERR_HEADERS_TIMEOUT"
    ∷ lit "UND_ERR_SOCKET"
    ∷ []

unfoldable pub has_code : Text → Cause → Bool
unfolding text_beq
has_code code c = elim c.code [ none ↦ false | some actual ↦ text_beq actual code ]

unfoldable pub stops_read : Cause → Bool
unfolding has_code text_beq
stops_read c =
    c.is_error && (text_beq c.name (lit "AbortError") || text_beq c.name (lit "TimeoutError"))
    || has_code (lit "deadline_exceeded") c

-- `isCancelledRead`.
unfoldable pub is_cancelled_read : Failure → Bool
unfolding stops_read
is_cancelled_read e = any stops_read (take 4 e.chain)

unfoldable pub has_transient_network_code : Cause → Bool
unfolding text_beq
has_transient_network_code c = elim c.code [
  | none ↦ false
  | some code ↦ contains transient_network_codes code
]

abbrev is_fetch_failure : Kind → Bool
is_fetch_failure (type_error m) = text_beq m (lit "fetch failed")
is_fetch_failure _ = false

-- `isTransientNetworkError`.
unfoldable pub is_transient_network_error : Failure → Bool
unfolding has_transient_network_code
is_transient_network_error e =
    is_fetch_failure e.kind || any has_transient_network_code (take 4 e.chain)

abbrev is_retryable_status : ℕ → Bool
is_retryable_status s = eqb s 408 || eqb s 429 || eqb s 499 || leb 500 s

retryable_kind : Failure → Kind → Bool
unfolding is_transient_network_error
retryable_kind e (hub_api status) = is_retryable_status status
retryable_kind e invalid_format = true
retryable_kind e (type_error m) = is_transient_network_error e
retryable_kind e other = is_transient_network_error e

-- `isRetryableHubReadError`.
unfoldable pub is_retryable : Failure → Bool
unfolding is_cancelled_read retryable_kind
is_retryable e = if is_cancelled_read e then false else retryable_kind e e.kind

module _ {A : Type 0} (operation : ℕ → Result Failure A) where
  -- The loop of `retryTransientHubRead`, with the rounds that are left.
  unfoldable pub retry_from : ℕ → ℕ → List ℕ → List ℕ × Result Thrown A
  unfolding is_retryable
  retry_from zero attempt waits = (waits, err exhausted)
  retry_from (suc left) attempt waits =
      let rest = retry_from left (attempt + 1) (waits ++ attempt ∷ []) in
      elim (operation attempt) [
        | ok value ↦ (waits, ok value)
        | err e ↦
            if eqb attempt hub_read_attempts || not (is_retryable e)
            then (waits, err (failure e))
            else rest
      ]

  unfoldable pub retry_transient_hub_read : List ℕ × Result Thrown A
  unfolding retry_from
  retry_transient_hub_read = retry_from hub_read_attempts 1 []
