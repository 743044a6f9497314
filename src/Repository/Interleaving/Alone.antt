-- ===== src/Repository/Interleaving/Alone.antt =====
-- A save that runs alone, statement by statement, is `save` of
-- app/infrastructure/db/repositories/session_repository.py.
use cognaris_chatbot.Prelude.{◌≡◌, [], arith}
use cognaris_chatbot.Python.{Env}
use cognaris_chatbot.Cache
use cognaris_chatbot.Cache.{Client}
use cognaris_chatbot.Repository
use cognaris_chatbot.Repository.{Database, Backend, save_over}
use cognaris_chatbot.Repository.Interleaving.{Saver, selecting, finished, advance, advance_from}

-- Three statements of a save with nothing in between, from an idle database session: they finish with the
-- result of `save`, and leave its database.
alone-save :
    {D R Raw : Type 0} (env : Env) (db : Database D) (c : Client R Raw) (p : Saver)
    (b : Backend D R)
    → p.phase ≡ selecting
    → b.pending ≡ []
    → let (r, b') = Repository.save env db c p.session p.expected_revision p.events b in
      let (p₁, d₁) = advance env db p b.db in
      let (p₂, d₂) = advance env db p₁ d₁ in
      let (p₃, d₃) = advance env db p₂ d₂ in (p₃.phase ≡ finished r) × (d₃ ≡ b'.db)
unfolding Repository.save save_over advance advance_from Cache.set Cache.invalidate
alone-save env db c p b fresh idle = ground (arith, fresh, idle)
