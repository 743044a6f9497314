-- ===== src/Cache/RoundTrip.antt =====
-- `_deserialize` of app/infrastructure/cache/session_cache.py reads back what `_serialize` writes.
use cognaris_chatbot.Prelude.{
  suc, ◌≡◌, refl, String, Option, none, some, List, [], ◌∷◌, false, ok, arith, ℕ,
}
use cognaris_chatbot.Python.{obj, Env, TextLaws, Fields, get}
use cognaris_chatbot.Enums.{state_of-state_value, role_of-role_value, platform_of-platform_value}
use cognaris_chatbot.Entities.{ConversationMessage, OnboardingSession, default_ttl}
use cognaris_chatbot.Entities.Message.{is_refused, checked_accepts}
use cognaris_chatbot.Entities.Invariant.{IsLog}
use cognaris_chatbot.Cache.Json.{
  index, get_or_null, as_text, as_text_or_none, as_number, as_dict_or_none, as_state, as_role,
  as_platform, as_uuid, as_instant, optional_instant, iso_or_null, dict_or_null, text_or_null,
  serialize_message, serialize_messages, session_fields, serialize, deserialize_message,
  deserialize_items, deserialize_messages, deserialize,
}

as_dict_or_none-dict_or_null : (d : Option Fields) → as_dict_or_none (dict_or_null d) ≡ ok d
unfolding as_dict_or_none
as_dict_or_none-dict_or_null none = refl
as_dict_or_none-dict_or_null (some fs) = refl

as_text_or_none-text_or_null : (t : Option String) → as_text_or_none (text_or_null t) ≡ ok t
unfolding as_text_or_none
as_text_or_none-text_or_null none = refl
as_text_or_none-text_or_null (some t) = refl

module _ (env : Env) (laws : TextLaws env) where
  deserialize_message-serialize_message :
      (m : ConversationMessage)
      → is_refused m.content m.rich_payload ≡ false
      → deserialize_message env (serialize_message env m) ≡ ok m
  unfolding deserialize_message serialize_message index get_or_null get as_uuid as_role as_text
      as_number as_instant
  deserialize_message-serialize_message m fits =
      simp (laws.uuid_back, laws.iso_back, role_of-role_value, as_dict_or_none-dict_or_null)
        (checked_accepts m fits)

  deserialize_items-serialize_messages :
      (id n : ℕ) (ms : List ConversationMessage)
      → IsLog id n ms
      → deserialize_items env (serialize_messages env ms) ≡ ok ms
  unfolding deserialize_items serialize_messages
  deserialize_items-serialize_messages id n [] h = refl
  deserialize_items-serialize_messages id n (m ∷ ms) h = simp (
    deserialize_message-serialize_message m h.2,
    deserialize_items-serialize_messages id (suc n) ms h.3,
  )

  optional_instant-iso_or_null :
      (key : String) (fs : Fields) (t : Option ℕ)
      → get key fs ≡ some (iso_or_null env t)
      → optional_instant env key (obj fs) ≡ ok t
  unfolding optional_instant
  optional_instant-iso_or_null key fs none found = ground arith
  optional_instant-iso_or_null key fs (some t) found =
      ground (arith, laws.iso_not_empty t, laws.iso_back t)

  -- A session with a valid log survives `_serialize` and `_deserialize` in every field but the TTL,
  -- which is not written and comes back as its default.
  pub deserialize-serialize :
      (s : OnboardingSession)
      → IsLog s.id 0 s.messages
      → deserialize env (serialize env s) ≡ ok (record s { ttl = default_ttl })
  unfolding deserialize serialize index get_or_null get as_uuid as_state as_platform as_text
      as_number as_instant deserialize_messages
  deserialize-serialize s log = simp (
    deserialize_items-serialize_messages s.id 0 s.messages log,
    laws.uuid_back,
    laws.iso_back,
    state_of-state_value,
    platform_of-platform_value,
    as_text_or_none-text_or_null,
    optional_instant-iso_or_null "confirmed_at" (session_fields env s) s.confirmed_at refl,
    optional_instant-iso_or_null "submitted_at" (session_fields env s) s.submitted_at refl,
    optional_instant-iso_or_null "completed_at" (session_fields env s) s.completed_at refl,
  )
