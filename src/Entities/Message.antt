-- ===== src/Entities/Message.antt =====
-- What `ConversationMessage.__post_init__` of app/domain/onboarding/entities.py accepts.
use cognaris_chatbot.Prelude.{
  String, count, ◌≡◌, Bool, true, false, Option, refl, arith, ltb, ◌&&◌, ◌||◌, inl, inr, Bool-cases,
  ok, err, str_eq,
}
use cognaris_chatbot.Python.{Fields, is_empty}
use cognaris_chatbot.Errors.{domain, DomainError, invalid_message}
use cognaris_chatbot.Entities.{ConversationMessage, checked, no_content, too_long, max_content}

-- No text and no payload, or too long a text.
abbrev pub is_refused : String → Option Fields → Bool
is_refused content rich_payload =
    (str_eq content "" && is_empty rich_payload) || ltb max_content (count content)

module _ (m : ConversationMessage) where
  pub checked_accepts : is_refused m.content m.rich_payload ≡ false → checked m ≡ ok m
  unfolding checked
  checked_accepts h = ground arith

  pub checked_refuses :
      is_refused m.content m.rich_payload ≡ true
      → (e : DomainError) × (checked m ≡ err (domain e)) × (e.kind ≡ invalid_message)
  unfolding checked
  checked_refuses h = elim (Bool-cases (str_eq m.content "" && is_empty m.rich_payload)) [
    | inl e ↦ (no_content m, ground arith, refl)
    | inr e ↦ (too_long m, ground arith, refl)
  ]
