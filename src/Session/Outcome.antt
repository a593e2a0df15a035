-- ===== src/Session/Outcome.antt =====
-- What the chunk store reads of a write's outcome (include/crowdy/graphql/graphql_client.hpp and
-- errors.hpp), and when src/session/world_session.cpp tries a write again.
use Prim.Native.String.{String}
use text.Mathlib.Text.{◌==◌ as str_eq}
use crowdy_cpp.Base.{
  ℕ, Bool, true, false, not, ◌&&◌, ◌||◌, Option, none, some, List, [], ◌∷◌, ◌==◌, if◌then◌else◌,
}
use crowdy_cpp.Core.Result.{Status, is_ok}

pub data GraphQlErrorKind : Type 0 where
  no_error http graphql protocol network timeout cancelled : GraphQlErrorKind

-- The fields that the store reads.
pub record GraphQlErrorDetail : Type 0 where
  pub code : String
  pub retryable : Bool
  pub http_status : Option ℕ

pub record GraphQlOutcome : Type 0 where
  pub status : Status
  pub kind : GraphQlErrorKind
  pub errors : List GraphQlErrorDetail
  pub http_status : ℕ

abbrev is_none : GraphQlErrorKind → Bool
is_none GraphQlErrorKind.no_error = true
is_none _ = false

pub outcome_ok : GraphQlOutcome → Bool
outcome_ok out = is_ok out.status && is_none out.kind

abbrev refusal_codes : List String
refusal_codes =
    "FORBIDDEN" ∷ "SCOPE_MISSING" ∷ "NOT_ALLOWED" ∷ "BAD_REQUEST" ∷ "BAD_USER_INPUT"
    ∷ "INVALID_REQUEST" ∷ "GRAPHQL_VALIDATION_FAILED" ∷ "NOT_FOUND" ∷ []

-- The loop over `kCodes`.
abbrev is_among : String → List String → Bool
is_among code [] = false
is_among code (refused ∷ codes) = str_eq code refused || is_among code codes

pub is_write_back_refusal_code : String → Bool
is_write_back_refusal_code code = is_among code refusal_codes

pub is_write_back_refusal_status : ℕ → Bool
is_write_back_refusal_status status =
    (status == 400) || (status == 403) || (status == 404) || (status == 413) || (status == 422)

-- `error.httpStatus && isWriteBackRefusalStatus(*error.httpStatus)`
abbrev pub has_refusal_status : Option ℕ → Bool
has_refusal_status none = false
has_refusal_status (some status) = is_write_back_refusal_status status

-- `error.code == "PLATFORM_BUSY" || error.code == "UNAUTHENTICATED"`
pub is_passing : String → Bool
is_passing code = str_eq code "PLATFORM_BUSY" || str_eq code "UNAUTHENTICATED"

-- The loop over the errors.
pub errors_retryable : List GraphQlErrorDetail → Bool
errors_retryable [] = true
errors_retryable (e ∷ errors) =
    let rest = errors_retryable errors in
    if is_passing e.code
    then rest
    else if not e.retryable
    then false
    else if is_write_back_refusal_code e.code
    then false
    else if has_refusal_status e.http_status
    then false
    else rest

pub write_back_retryable : GraphQlOutcome → Bool
write_back_retryable out = elim out.kind [
  | GraphQlErrorKind.network ↦ true
  | GraphQlErrorKind.timeout ↦ true
  | GraphQlErrorKind.protocol ↦ true
  | GraphQlErrorKind.http ↦ not (is_write_back_refusal_status out.http_status)
  | GraphQlErrorKind.cancelled ↦ false
  | GraphQlErrorKind.no_error ↦ true
  | GraphQlErrorKind.graphql ↦ errors_retryable out.errors
]
