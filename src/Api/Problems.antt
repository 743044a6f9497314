-- ===== src/Api/Problems.antt =====
-- The body of every error response of app/api/errors.py.
use cognaris_chatbot.Prelude.{String, ◌≡◌, ◌≤◌, ◌<◌, none, some, pos}
use cognaris_chatbot.Python.{Fields, obj, str, int, get, UniqueFields}
use cognaris_chatbot.Errors.{Error, code, domain}
use cognaris_chatbot.Api.{Problem}

-- A problem document with this code and detail: a dict with no key twice, whose status is that of the
-- response, an error.
pub record IsProblem (code detail : String) (p : Problem) : Type 0 where
  pub fields : Fields
  pub body : p.body ≡ obj fields
  pub unique : UniqueFields fields
  pub same_status : get "status" fields ≡ some (int (pos p.status))
  pub is_error : (400 ≤ p.status) × (p.status < 600)
  pub has_code : get "code" fields ≡ some (str code)
  pub has_detail : get "detail" fields ≡ some (str detail)

-- the details of a domain error are a dict
abbrev pub HasDetails : Error → Type 0
HasDetails (domain exc) = UniqueFields exc.details
HasDetails e = Unit

-- What a client is told of an exception, its code and its detail: of an exception that is no domain error,
-- nothing.
abbrev pub told : Error → String × String
told (domain exc) = (code exc.kind, exc.message)
told e = ("INTERNAL_ERROR", "An unexpected error occurred.")

-- what `extra` adds: no key twice, and none of the five
record IsExtra (extra : Fields) : Type 0 where
  no_type : get "type" extra ≡ none
  no_title : get "title" extra ≡ none
  no_status : get "status" extra ≡ none
  no_code : get "code" extra ≡ none
  no_detail : get "detail" extra ≡ none
  unique : UniqueFields extra
