-- ===== src/Errors.antt =====
-- app/core/exceptions.py and app/domain/onboarding/exceptions.py: the domain errors with their codes
-- and HTTP statuses, and the other exceptions that the modelled code raises or lets through.
use cognaris_chatbot.Prelude.{ℕ, zero, suc, String, Option, none, some}
use cognaris_chatbot.Python.{Fields}

-- The exception classes; StaleRevisionError takes its own arguments.
pub data ErrorClass : Type 0 where
  domain_error not_found conflict validation unauthorized dependency_unavailable : ErrorClass
  session_not_found session_already_exists invalid_session_state : ErrorClass
  stale_revision session_expired invalid_message : ErrorClass

-- the class that a class extends
unfoldable pub base : ErrorClass → Option ErrorClass
base domain_error = none
base session_not_found = some not_found
base session_already_exists = some conflict
base invalid_session_state = some conflict
base stale_revision = some conflict
base session_expired = some conflict
base invalid_message = some validation
base _ = some domain_error

-- the class attribute `code`, which every class sets
unfoldable pub code : ErrorClass → String
code domain_error = "DOMAIN_ERROR"
code not_found = "NOT_FOUND"
code conflict = "CONFLICT"
code validation = "VALIDATION_ERROR"
code unauthorized = "UNAUTHORIZED"
code dependency_unavailable = "DEPENDENCY_UNAVAILABLE"
code session_not_found = "SESSION_NOT_FOUND"
code session_already_exists = "SESSION_ALREADY_EXISTS"
code invalid_session_state = "INVALID_SESSION_STATE"
code stale_revision = "STALE_REVISION"
code session_expired = "SESSION_EXPIRED"
code invalid_message = "INVALID_MESSAGE"

-- the class attribute `http_status` where a class sets it
unfoldable pub own_status : ErrorClass → Option ℕ
own_status domain_error = some 400
own_status not_found = some 404
own_status conflict = some 409
own_status validation = some 422
own_status unauthorized = some 401
own_status dependency_unavailable = some 503
own_status _ = none

-- attribute lookup: the class, then the classes that it extends, which are at most two
inherited_status : ℕ → ErrorClass → ℕ
inherited_status zero c = 400
inherited_status (suc depth) c = elim (own_status c) [
  | some status ↦ status
  | none ↦ elim (base c) [ none ↦ 400 | some b ↦ inherited_status depth b ]
]

unfoldable pub http_status : ErrorClass → ℕ
unfolding inherited_status own_status base
http_status = inherited_status 3

pub record DomainError : Type 0 where
  pub kind : ErrorClass
  pub message : String
  pub details : Fields  -- `details or {}`

-- What may be raised. Besides the domain errors: the exceptions of Python, of json, of the Redis
-- client and of the database driver. `untyped` is no exception: it marks a value of another type
-- than its field's annotation, with which Python would go on and the model stops.
pub data Error : Type 0 where
  domain : DomainError → Error
  key_error value_error type_error json_decode_error : Error
  redis_error integrity_error database_error : Error
  untyped : Error
