-- ===== src/Cache/Json.antt =====
-- `_serialize` and `_deserialize` of app/infrastructure/cache/session_cache.py: a session as a
-- JSON-compatible dict, and back.
use cognaris_chatbot.Prelude.{
  ℕ, String, Bool, true, false, not, ◌||◌, Option, none, some, List, [], ◌∷◌, pos, ◌==◌,
  if◌then◌else◌, str_eq, Outcome, ok, err,
}
use cognaris_chatbot.Prelude.Raising.{◌>>=◌}
use cognaris_chatbot.Python.{
  Env, Json, Items, Fields, null, bool, int, float, str, arr, obj, nil, cons, end, field, get,
}
use cognaris_chatbot.Enums.{
  SessionState, MessageRole, ClientPlatform, state_value, role_value, platform_value, state_of,
  role_of, platform_of,
}
use cognaris_chatbot.Errors.{Error, key_error, value_error, type_error, untyped}
use cognaris_chatbot.Entities.{ConversationMessage, OnboardingSession, checked, default_ttl}

abbrev pub dict_or_null : Option Fields → Json
dict_or_null none = null
dict_or_null (some fs) = obj fs

abbrev pub text_or_null : Option String → Json
text_or_null none = null
text_or_null (some t) = str t

-- `d[key]`
unfoldable pub index : String → Json → Outcome Error Json
index key (obj fs) = elim (get key fs) [ none ↦ err key_error | some j ↦ ok j ]
index key _ = err type_error

-- `d.get(key)`
unfoldable pub get_or_null : String → Json → Outcome Error Json
get_or_null key (obj fs) = elim (get key fs) [ none ↦ ok null | some j ↦ ok j ]
get_or_null key _ = err type_error

-- `bool(value)`
unfoldable pub is_truthy : Json → Bool
is_truthy null = false
is_truthy (bool b) = b
is_truthy (int (pos n)) = not (n == 0)
is_truthy (float t) = not (str_eq t "0.0" || str_eq t "-0.0")
is_truthy (str t) = not (str_eq t "")
is_truthy (arr nil) = false
is_truthy (obj end) = false
is_truthy _ = true

or_value_error : {A : Type 0} → Option A → Outcome Error A
or_value_error none = err value_error
or_value_error (some a) = ok a

-- fields that are taken as they are: a value of another type than the field's is `untyped`
unfoldable pub as_text : Json → Outcome Error String
as_text (str t) = ok t
as_text _ = err untyped

unfoldable pub as_text_or_none : Json → Outcome Error (Option String)
as_text_or_none null = ok none
as_text_or_none (str t) = ok (some t)
as_text_or_none _ = err untyped

unfoldable pub as_number : Json → Outcome Error ℕ
as_number (int (pos n)) = ok n
as_number _ = err untyped

unfoldable pub as_dict_or_none : Json → Outcome Error (Option Fields)
as_dict_or_none null = ok none
as_dict_or_none (obj fs) = ok (some fs)
as_dict_or_none _ = err untyped

-- an Enum looks any value up, and raises ValueError for one that no member has
unfoldable pub as_state : Json → Outcome Error SessionState
unfolding or_value_error
as_state (str t) = or_value_error (state_of t)
as_state _ = err value_error

unfoldable pub as_role : Json → Outcome Error MessageRole
unfolding or_value_error
as_role (str t) = or_value_error (role_of t)
as_role _ = err value_error

unfoldable pub as_platform : Json → Outcome Error ClientPlatform
unfolding or_value_error
as_platform (str t) = or_value_error (platform_of t)
as_platform _ = err value_error

module _ (env : Env) where
  abbrev pub iso_or_null : Option ℕ → Json
  iso_or_null none = null
  iso_or_null (some t) = str (env.isoformat t)

  unfoldable pub serialize_message : ConversationMessage → Json
  serialize_message m = obj (
      field "id" (str (env.str_uuid m.id)) (
        field "session_id" (str (env.str_uuid m.session_id)) (
          field "role" (str (role_value m.role)) (
            field "content" (str m.content) (
              field "sequence" (int (pos m.sequence)) (
                field "created_at" (str (env.isoformat m.created_at)) (
                  field "rich_payload" (dict_or_null m.rich_payload)
                    (field "metadata" (dict_or_null m.metadata) end))))))))

  unfoldable pub serialize_messages : List ConversationMessage → Items
  serialize_messages [] = nil
  serialize_messages (m ∷ ms) = cons (serialize_message m) (serialize_messages ms)

  -- the entries of the dict
  unfoldable pub session_fields : OnboardingSession → Fields
  session_fields s = field "id" (str (env.str_uuid s.id)) (
      field "user_id" (str (env.str_uuid s.user_id)) (
        field "state" (str (state_value s.state)) (
          field "revision" (int (pos s.revision)) (
            field "locale" (str s.locale) (
              field "client_platform" (str (platform_value s.client_platform)) (
                field "current_step" (text_or_null s.current_step) (
                  field "started_at" (str (env.isoformat s.started_at)) (
                    field "last_active_at" (str (env.isoformat s.last_active_at)) (
                      field "expires_at" (str (env.isoformat s.expires_at)) (
                        field "confirmed_at" (iso_or_null s.confirmed_at) (
                          field "submitted_at" (iso_or_null s.submitted_at) (
                            field "completed_at" (iso_or_null s.completed_at) (
                              field "messages" (arr (serialize_messages s.messages))
                                end)))))))))))))

  unfoldable pub serialize : OnboardingSession → Json
  unfolding session_fields
  serialize s = obj (session_fields s)

  -- `UUID(value)`
  unfoldable pub as_uuid : Json → Outcome Error ℕ
  unfolding or_value_error
  as_uuid (str t) = or_value_error (env.parse_uuid t)
  as_uuid _ = err type_error

  -- `datetime.fromisoformat(value)`
  unfoldable pub as_instant : Json → Outcome Error ℕ
  unfolding or_value_error
  as_instant (str t) = or_value_error (env.fromisoformat t)
  as_instant _ = err type_error

  -- `datetime.fromisoformat(data[key]) if data.get(key) else None`
  unfoldable pub optional_instant : String → Json → Outcome Error (Option ℕ)
  unfolding get_or_null is_truthy index as_instant
  optional_instant key j = do
    found ← get_or_null key j
    if is_truthy found then (do value ← index key j; t ← as_instant value; ok (some t)) else ok none

  unfoldable pub deserialize_message : Json → Outcome Error ConversationMessage
  deserialize_message m = do
    id ← as_uuid (← index "id" m)
    session_id ← as_uuid (← index "session_id" m)
    role ← as_role (← index "role" m)
    content ← as_text (← index "content" m)
    sequence ← as_number (← index "sequence" m)
    created_at ← as_instant (← index "created_at" m)
    rich_payload ← as_dict_or_none (← get_or_null "rich_payload" m)
    metadata ← as_dict_or_none (← get_or_null "metadata" m)
    checked (record {
      id = id;
      session_id = session_id;
      role = role;
      content = content;
      sequence = sequence;
      created_at = created_at;
      rich_payload = rich_payload;
      metadata = metadata;
    })

  unfoldable pub deserialize_items : Items → Outcome Error (List ConversationMessage)
  unfolding deserialize_message
  deserialize_items nil = ok []
  deserialize_items (cons j rest) = do
    m ← deserialize_message j
    ms ← deserialize_items rest
    ok (m ∷ ms)

  -- the comprehension over `data["messages"]`: an empty text or dict has no items either, and the
  -- items of a text or a dict are texts, in which no key is found
  unfoldable pub deserialize_messages : Json → Outcome Error (List ConversationMessage)
  unfolding deserialize_items
  deserialize_messages (arr items) = deserialize_items items
  deserialize_messages (obj end) = ok []
  deserialize_messages (str t) = if str_eq t "" then ok [] else err type_error
  deserialize_messages _ = err type_error

  unfoldable pub deserialize : Json → Outcome Error OnboardingSession
  deserialize data' = do
    messages ← deserialize_messages (← index "messages" data')
    id ← as_uuid (← index "id" data')
    user_id ← as_uuid (← index "user_id" data')
    state ← as_state (← index "state" data')
    revision ← as_number (← index "revision" data')
    locale ← as_text (← index "locale" data')
    client_platform ← as_platform (← index "client_platform" data')
    current_step ← as_text_or_none (← get_or_null "current_step" data')
    started_at ← as_instant (← index "started_at" data')
    last_active_at ← as_instant (← index "last_active_at" data')
    expires_at ← as_instant (← index "expires_at" data')
    confirmed_at ← optional_instant "confirmed_at" data'
    submitted_at ← optional_instant "submitted_at" data'
    completed_at ← optional_instant "completed_at" data'
    ok (record {
      id = id;
      user_id = user_id;
      state = state;
      revision = revision;
      locale = locale;
      client_platform = client_platform;
      started_at = started_at;
      last_active_at = last_active_at;
      expires_at = expires_at;
      current_step = current_step;
      confirmed_at = confirmed_at;
      submitted_at = submitted_at;
      completed_at = completed_at;
      messages = messages;
      ttl = default_ttl;
    })
