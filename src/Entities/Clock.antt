-- ===== src/Entities/Clock.antt =====
-- Revisions, instants and the log of a session of app/domain/onboarding/entities.py over time.
use cognaris_chatbot.Prelude.{
  ◌<◌, ◌⊎◌, ap, leb→le, inl, inr, sym, ◌∙◌, Bool-cases, ℕ, zero, suc, ◌+◌, ◌≤◌, ◌≡◌, refl, false,
  List, [], ◌∷◌, ◌++◌, arith,
}
use mathlib.Core.List.{append-nil, append_assoc}
use cognaris_chatbot.Python.{Env, Monotone}
use cognaris_chatbot.Enums.{SessionState}
use cognaris_chatbot.Entities.{leb, ConversationMessage, OnboardingSession, Live, stamp}
use cognaris_chatbot.Entities.Steps.{touch, Step, move, say, walk, slide, wait}
use cognaris_chatbot.Entities.Runs.{Command, run, run_keeps}

pub now_at_mono : (env : Env) → Monotone env → (j k : ℕ) → j ≤ k → env.now_at j ≤ env.now_at k
now_at_mono env mono j zero le = rw j_zero (omega arith)
  where
    j_zero : j ≡ 0
    j_zero = omega arith
now_at_mono env mono j (suc k) le = elim (Bool-cases (leb j k)) [
  | inl below ↦ omega (arith, mono k, now_at_mono env mono j k (leb→le j k below))
  | inr last ↦ rw (equal last) (omega arith)
]
  where
    equal : leb j k ≡ false → j ≡ suc k
    equal e = ground arith

-- What a later moment of the session owes to an earlier one, after k readings of the clock.
pub record Since (env : Env) (s : OnboardingSession) (k : ℕ) (t : OnboardingSession) : Type 0 where
  pub same_id : t.id ≡ s.id
  pub same_user : t.user_id ≡ s.user_id
  pub same_start : t.started_at ≡ s.started_at
  pub log_extends : (more : List ConversationMessage) × (t.messages ≡ s.messages ++ more)
  pub revision_grows : s.revision ≤ t.revision
  pub activity_moves_on : s.last_active_at ≤ t.last_active_at
  pub not_ahead : t.last_active_at ≤ env.now_at k

-- what a session is, and its history, apart from the state and the instants
abbrev IsAlike : OnboardingSession → OnboardingSession → Type 0
IsAlike s t =
    (t.id ≡ s.id)
    × (t.user_id ≡ s.user_id)
    × (t.started_at ≡ s.started_at)
    × (t.messages ≡ s.messages)
    × (t.revision ≡ s.revision)

stamp-IsAlike :
    (target : SessionState) (now : ℕ) (s : OnboardingSession) → IsAlike s (stamp target now s)
stamp-IsAlike target now s = ground arith

module _ (env : Env) (mono : Monotone env) (s : OnboardingSession) where
  touch-Since :
      (w k : ℕ) (t t' : OnboardingSession)
      → w ≤ k
      → IsAlike t t'
      → Since env s w t
      → Since env s (suc k) (touch env k t')
  touch-Since w k t t' le (i, u, a, m, r) h = record {
    same_id = i ∙ h.same_id;
    same_user = u ∙ h.same_user;
    same_start = a ∙ h.same_start;
    log_extends = (h.log_extends.0, m ∙ h.log_extends.1);
    revision_grows = omega (arith, h.revision_grows);
    activity_moves_on = omega (arith, h.activity_moves_on, h.not_ahead, now_at_mono env mono w k);
    not_ahead = mono k;
  }

  says :
      (w : ℕ) (t : OnboardingSession) (m : ConversationMessage)
      → Since env s w t
      → Since env s w (record t { messages = t.messages ++ m ∷ [] })
  says w t m h = record {
    same_id = h.same_id;
    same_user = h.same_user;
    same_start = h.same_start;
    log_extends = (
      h.log_extends.0 ++ m ∷ [],
      rw (h.log_extends.1) (append_assoc s.messages h.log_extends.0 (m ∷ [])),
    );
    revision_grows = h.revision_grows;
    activity_moves_on = h.activity_moves_on;
    not_ahead = h.not_ahead;
  }

  same : (t : OnboardingSession) → IsAlike t t
  same t = (refl, refl, refl, refl, refl)

  Step-Since :
      (w k : ℕ) (t u : OnboardingSession) → Step env w t k u → Since env s w t → Since env s k u
  Step-Since w _ t _ (move target j k le le' edge) h =
      touch-Since w k t (record (stamp target (env.now_at j) t) { state = target }) (omega arith)
        (stamp-IsAlike target (env.now_at j) t) h
  Step-Since w _ t _ (say m k le alive c) h =
      let t' = record t { messages = t.messages ++ m ∷ [] } in
      touch-Since w k t' t' le (same t') (says w t m h)
  Step-Since w _ t _ (walk step k le alive) h =
      touch-Since w k t (record t { current_step = step }) le (same t) h
  Step-Since w _ t _ (slide k le alive) h = touch-Since w k t t le (same t) h
  Step-Since w k t _ (wait _ le) h = record {
    same_id = h.same_id;
    same_user = h.same_user;
    same_start = h.same_start;
    log_extends = h.log_extends;
    revision_grows = h.revision_grows;
    activity_moves_on = h.activity_moves_on;
    not_ahead = omega (arith, h.not_ahead, now_at_mono env mono w k);
  }

-- With a clock that never runs backwards, and a last activity that is not in the future: any
-- commands keep the identity, the owner and the start of the session, only append to its log, and
-- neither lower its revision nor move its last activity back.
pub run-Since :
    (env : Env) (cs : List Command) (l : Live)
    → Monotone env
    → l.session.last_active_at ≤ env.now_at l.world.readings
    → let l' = run env cs l in Since env l.session l'.world.readings l'.session
run-Since env cs l mono now =
    run_keeps env (λ k t. Since env l.session k t) (Step-Since env mono l.session) cs l
      (record {
        same_id = refl;
        same_user = refl;
        same_start = refl;
        log_extends = ([], sym (append-nil l.session.messages));
        revision_grows = omega arith;
        activity_moves_on = omega arith;
        not_ahead = now;
      })

-- Unchanged, or of a later revision.
abbrev pub IsSameOrNewer : OnboardingSession → OnboardingSession → Type 0
IsSameOrNewer s t = (t ≡ s) ⊎ (s.revision < t.revision)

newer :
    (s t u : OnboardingSession)
    → IsSameOrNewer s t
    → u.revision ≡ t.revision + 1
    → IsSameOrNewer s u
newer s t u (inl e) h = inr (omega (arith, ap (λ (x : OnboardingSession). x.revision) e))
newer s t u (inr lt) h = inr (omega arith)

Step-IsSameOrNewer :
    (env : Env) (s : OnboardingSession) (w k : ℕ) (t u : OnboardingSession)
    → Step env w t k u
    → IsSameOrNewer s t
    → IsSameOrNewer s u
Step-IsSameOrNewer env s w _ t _ (move target j k _ _ _) h =
    newer s t _ h (ap (λ (n : ℕ). n + 1) ((stamp-IsAlike target (env.now_at j) t).4))
Step-IsSameOrNewer env s w _ t _ (say m k _ _ _) h = newer s t _ h refl
Step-IsSameOrNewer env s w _ t _ (walk step k _ _) h = newer s t _ h refl
Step-IsSameOrNewer env s w _ t _ (slide k _ _) h = newer s t _ h refl
Step-IsSameOrNewer env s w _ t _ (wait k _) h = h

-- Commands that change anything of a session, whether they return or raise, raise its revision.
run_bumps_revision :
    (env : Env) (cs : List Command) (l : Live)
    → ((run env cs l).session ≡ l.session) ⊎ (l.session.revision < (run env cs l).session.revision)
run_bumps_revision env cs l =
    run_keeps env (λ _. IsSameOrNewer l.session) (Step-IsSameOrNewer env l.session) cs l (inl refl)
