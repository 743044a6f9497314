-- ===== src/Coherent/Turns.antt =====
-- `append_message` of app/domain/onboarding/entities.py on a well-formed session as the API makes it.
use cognaris_chatbot.Prelude.{
  String, ◌≡◌, subst, ◌⊎◌, inl, inr, Option, ok, err, List, [], ◌∷◌, ◌++◌, Bool-cases, leb, leb→le,
  not_leb→lt,
}
use cognaris_chatbot.Python.{Env, Fields}
use cognaris_chatbot.Errors.{Error}
use cognaris_chatbot.Enums.{MessageRole, in_terminal_states}
use cognaris_chatbot.Entities.{ConversationMessage, Live, append_message}
use cognaris_chatbot.Entities.Commands.{
  append_message_terminal, append_message_expired, append_message_refused, append_message_succeeds,
  Raises-cases, new_message, with_message,
}
use cognaris_chatbot.Entities.Message.{is_refused}
use cognaris_chatbot.Entities.Invariant.{IsValid, Step-IsValid}
use cognaris_chatbot.Entities.Runs.{Steps_keep}
use cognaris_chatbot.Entities.Steps.{append_message-Refines}
use cognaris_chatbot.Cache.Laws.{HasDicts, IsDict}
use cognaris_chatbot.Coherent.{IsGood}

HasDicts-append :
    (ms : List ConversationMessage) (m : ConversationMessage)
    → HasDicts ms
    → IsDict m.rich_payload
    → IsDict m.metadata
    → HasDicts (ms ++ m ∷ [])
HasDicts-append [] m h p q = (p, q, tt)
HasDicts-append (x ∷ ms) m h p q = (h.0, h.1, HasDicts-append ms m h.2 p q)

module _ (env : Env) (role : MessageRole) (content : String) (rich_payload metadata : Option Fields)
    (l : Live) where
  -- `append_message` raises, or returns as it does for an acceptable message in an open session.
  pub append_cases :
      ((e : Error) × ((append_message env role content rich_payload metadata l).0 ≡ err e))
      ⊎ (append_message env role content rich_payload metadata l ≡ (
          let m = new_message env role content rich_payload metadata l in
          (ok m, with_message env role m l)))
  append_cases = elim (Bool-cases (in_terminal_states l.session.state)) [
    | inl closed ↦
        let (e, raised, _) =
          Raises-cases _ _
            (append_message_terminal env role content rich_payload metadata l closed).0 in
        inl (_, raised)
    | inr open_now ↦ elim (Bool-cases (leb l.session.expires_at (env.now_at l.world.readings))) [
      | inl late ↦
          let (e, raised, _) =
            Raises-cases _ _
              (append_message_expired env role content rich_payload metadata l open_now
                (leb→le _ _ late)).0 in
          inl (_, raised)
      | inr live ↦ elim (Bool-cases (is_refused content rich_payload)) [
        | inl bad ↦
            let (e, raised, _) =
              Raises-cases _ _
                (append_message_refused env role content rich_payload metadata l open_now
                  (not_leb→lt _ _ live) bad).0 in
            inl (_, raised)
        | inr fits ↦ inr (
            append_message_succeeds env role content rich_payload metadata l open_now
              (not_leb→lt _ _ live) fits)
      ]
    ]
  ]

  pub with_message-IsGood :
      let m = new_message env role content rich_payload metadata l in
      append_message env role content rich_payload metadata l ≡ (ok m, with_message env role m l)
      → IsGood l.session
      → IsDict rich_payload
      → IsDict metadata
      → IsGood (with_message env role m l).session
  with_message-IsGood done good p q = record {
    valid =
        subst (λ x. IsValid x.1.session) done
          (Steps_keep env (λ _. IsValid) (Step-IsValid env)
            (append_message-Refines env role content rich_payload metadata l) good.valid);
    dicts = HasDicts-append l.session.messages _ good.dicts p q;
    ttl = good.ttl;
  }
