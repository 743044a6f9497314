-- ===== src/Schema/Applied.antt =====
-- What alembic/env.py makes of the server on which it runs the first migration.
use cognaris_chatbot.Prelude.{
  true, if◌then◌else◌, Bool, Outcome-cases, String, false, Option, none, some, ◌≡◌, refl, ◌∙◌, ap,
  subst, ◌⊎◌, inl, inr, Outcome, ok, err, Exec, continue, ◌>>=◌, Fails,
}
use cognaris_chatbot.Errors.{Error}
use cognaris_chatbot.Settings.{Settings}
use cognaris_chatbot.Pools.{once, Drivers, Process, outside, get_settings}
use cognaris_chatbot.Schema.{Ddl}
use cognaris_chatbot.Schema.Migration.{upgrade, downgrade}
use cognaris_chatbot.Schema.Reverse.{run}
use cognaris_chatbot.Schema.Environment.{
  Configuration, Alembic, exit_with, with_block, do_run_migrations, run_migrations_online, set_up,
  set_up_logging, env_module,
}
use cognaris_chatbot.Transaction.{unless_raised}

-- Whatever comes out, the server stays as it is.
abbrev pub IsQuiet : {G S A : Type 0} → (G → S) → Exec Error G A → Type 0
IsQuiet server m = (g : _) → server (m g).1 ≡ server g

bind-IsQuiet :
    {G S A B : Type 0} (server : G → S) (m : Exec Error G A) (f : A → Exec Error G B)
    → IsQuiet server m
    → ((a : A) → IsQuiet server (f a))
    → IsQuiet server (m >>= f)
bind-IsQuiet server m f h k g = elim (Outcome-cases (m g).0) [
  | inl (a, done) ↦ rw done (k a (m g).1 ∙ h g)
  | inr (e, raised) ↦ rw raised (h g)
]

-- The command that Alembic runs env.py for: `upgrade head`, `downgrade base`, or one that runs no migration
-- and writes no version, such as `current`. There is one revision.
pub data Command : Type 0 where
  upgrade_head downgrade_base other : Command

-- A server: whether its version table names the revision, and its schema.
pub record Server (S : Type 0) : Type 0 where
  pub is_revised : Bool
  pub schema : S

-- What a command makes of a server, by the version that it finds: an `upgrade head` of a server at the
-- head and a `downgrade base` of one at the base do nothing.
abbrev pub migrated : {S : Type 0} → (Ddl → S → S) → Command → Server S → Server S
migrated execute upgrade_head v =
    if v.is_revised then v else record { is_revised = true; schema = run execute upgrade v.schema }
migrated execute downgrade_base v =
    if v.is_revised
    then record { is_revised = false; schema = run execute downgrade v.schema }
    else v
migrated execute other v = v

-- What alembic/env.py relies on, run for `command`. `server` is what has been committed, `own` what the
-- transaction of the migrations sees. Only the end of the transaction changes the server: without an
-- exception it commits, with one it rolls back. A run of the migrations that returns has executed the
-- operations that the command has still to run, and written the version.
pub record AlembicLaws {G E N S : Type 0} (alembic : Alembic G E N) (server own : G → Server S)
    (execute : Ddl → S → S) (command : Command) : Type 0 where
  pub quiet_file : (name : String) → IsQuiet server (alembic.file_config name)
  pub quiet_option : (name value : String) → IsQuiet server (alembic.set_main_option name value)
  pub quiet_engine : IsQuiet server alembic.engine_from_config
  pub quiet_connect : (e : E) → IsQuiet server (alembic.connect e)
  pub quiet_configure : (c : Configuration N) → IsQuiet server (alembic.configure c)
  pub quiet_begin : IsQuiet server alembic.begin_transaction
  pub quiet_run : IsQuiet server alembic.run_migrations
  pub quiet_close : (n : N) → IsQuiet server (alembic.close n)
  pub quiet_dispose : (e : E) → IsQuiet server (alembic.dispose e)
  pub begins :
      (g : G)
      → (alembic.begin_transaction g).0 ≡ ok tt
      → own (alembic.begin_transaction g).1 ≡ server g
  pub runs :
      (g : G)
      → (alembic.run_migrations g).0 ≡ ok tt
      → own (alembic.run_migrations g).1 ≡ migrated execute command (own g)
  pub commits :
      (g : G)
      → (alembic.end_transaction (ok tt) g).0 ≡ ok tt
      → server (alembic.end_transaction (ok tt) g).1 ≡ own g
  -- a commit that raises may have reached the server
  pub commits_whole :
      (g : G)
      → (server (alembic.end_transaction (ok tt) g).1 ≡ server g)
        ⊎ (server (alembic.end_transaction (ok tt) g).1 ≡ own g)
  pub rolls_back : (e : Error) → IsQuiet server (alembic.end_transaction (err e))

unless_raised-Fails :
    {A : Type 0} (r : Outcome Error A) (x : Outcome Error (Unit {0}))
    → Fails r
    → Fails (unless_raised r x)
unless_raised-Fails (err e) (ok done) h = tt
unless_raised-Fails (err e) (err e') h = tt
unless_raised-Fails (ok a) x h = absurd h

module _ {G S : Type 0} (server : G → S) (goal : S → S) where
  -- Nothing has happened to the server and an exception is raised, or it has been migrated.
  abbrev pub IsMigrated : {A : Type 0} → G → Outcome Error A → G → Type 0
  IsMigrated g r g' = ((server g' ≡ server g) × Fails r) ⊎ (server g' ≡ goal (server g))

  -- something quiet before
  quiet-IsMigrated :
      {A B : Type 0} (m : Exec Error G A) (f : A → Exec Error G B) (g : G)
      → IsQuiet server m
      → ((a : A) (g' : G) → let (r, g'') = f a g' in IsMigrated g' r g'')
      → let (r, g') = (m >>= f) g in IsMigrated g r g'
  quiet-IsMigrated m f g quiet h = elim (Outcome-cases (m g).0) [
    | inr (e, raised) ↦ rw raised (inl (quiet g, tt))
    | inl (a, done) ↦ rw done (
        subst
          (λ x. let (r, g'') = f a (m g).1 in ((server g'' ≡ x) × Fails r) ⊎ (server g'' ≡ goal x))
          (quiet g) (h a (m g).1))
  ]

  -- something quiet after
  IsMigrated-exit :
      {A : Type 0} (exit : Outcome Error A → Exec Error G (Unit {0})) (g g' : G)
      (r : Outcome Error A)
      → ((r' : Outcome Error A) → IsQuiet server (exit r'))
      → IsMigrated g r g'
      → let (r', g'') = exit_with exit r g' in IsMigrated g r' g''
  IsMigrated-exit exit g g' r quiet h = elim h [
    | inl (same, raised) ↦ inl (quiet r g' ∙ same, unless_raised-Fails r (exit r g').0 raised)
    | inr upgraded ↦ inr (quiet r g' ∙ upgraded)
  ]

  IsMigrated-then :
      {A B : Type 0} (r : Outcome Error A) (m : Exec Error G B) (g g' : G)
      → IsQuiet server m
      → IsMigrated g r g'
      → let (r', g'') = continue r (λ _. m) g' in IsMigrated g r' g''
  IsMigrated-then (err e) m g g' quiet h = elim h [
    | inl (same, raised) ↦ inl (same, tt)
    | inr upgraded ↦ inr upgraded
  ]
  IsMigrated-then (ok a) m g g' quiet h = elim h [
    | inl (same, none_of) ↦ absurd none_of
    | inr upgraded ↦ inr (quiet g' ∙ upgraded)
  ]

module _ {G E F P C E' N S : Type 0} (drivers : Drivers G E F P C) (alembic : Alembic G E' N)
    (server own : G → Server S) (execute : Ddl → S → S) (command : Command)
    (laws : AlembicLaws alembic server own execute command) where
  abbrev goal : Server S → Server S
  goal = migrated execute command

  -- `with context.begin_transaction(): context.run_migrations()`
  transaction-IsMigrated :
      (g : G)
      → let (r, g') =
          with_block alembic.begin_transaction alembic.end_transaction alembic.run_migrations g in
        IsMigrated server goal g r g'
  transaction-IsMigrated g = elim (Outcome-cases (alembic.begin_transaction g).0) [
    | inr (e, raised) ↦ rw raised (inl (laws.quiet_begin g, tt))
    | inl (_, begun) ↦
        let g₁ = (alembic.begin_transaction g).1 in
        let g₂ = (alembic.run_migrations g₁).1 in
        elim (Outcome-cases (alembic.run_migrations g₁).0) [
          | inr (e, raised) ↦
              rw (begun, raised)
                (inl (
                  laws.rolls_back e g₂ ∙ laws.quiet_run g₁ ∙ laws.quiet_begin g,
                  unless_raised-Fails (err e) (alembic.end_transaction (err e) g₂).0 tt,
                ))
          | inl (_, ran) ↦
              let made : own g₂ ≡ goal (server g) =
                laws.runs g₁ ran ∙ ap goal (laws.begins g begun) in
              elim (Outcome-cases (alembic.end_transaction (ok tt) g₂).0) [
                | inl (_, done) ↦ rw (begun, ran) (inr (laws.commits g₂ done ∙ made))
                | inr (e, raised) ↦ elim (laws.commits_whole g₂) [
                  | inl same ↦
                      rw (begun, ran, raised)
                        (inl (same ∙ laws.quiet_run g₁ ∙ laws.quiet_begin g, tt))
                  | inr all ↦ rw (begun, ran) (inr (all ∙ made))
                ]
              ]
        ]
  ]

  do_run_migrations-IsMigrated :
      (n : N) (g : G) → let (r, g') = do_run_migrations alembic n g in IsMigrated server goal g r g'
  unfolding do_run_migrations
  do_run_migrations-IsMigrated n g =
      quiet-IsMigrated server goal (alembic.configure _) _ g (laws.quiet_configure _)
        (λ _. transaction-IsMigrated)

  online-IsMigrated :
      (g : G) → let (r, g') = run_migrations_online alembic g in IsMigrated server goal g r g'
  unfolding run_migrations_online
  online-IsMigrated g =
      quiet-IsMigrated server goal alembic.engine_from_config _ g laws.quiet_engine (λ e g'.
        quiet-IsMigrated server goal (alembic.connect e) _ g' (laws.quiet_connect e) (λ n g''.
          IsMigrated-then server goal _ (alembic.dispose e) g'' _ (laws.quiet_dispose e) (
            IsMigrated-exit server goal (λ _. alembic.close n) g'' _ _ (λ _. laws.quiet_close n)
              (do_run_migrations-IsMigrated n g''))))

  abbrev seen : Process G E F P → Server S
  seen p = server p.outside

  get_settings-IsQuiet : IsQuiet server drivers.load_settings → IsQuiet seen (get_settings drivers)
  unfolding get_settings
  get_settings-IsQuiet quiet p = once-IsQuiet p.settings p
    where
      once-IsQuiet :
          (cached : Option Settings)
          → IsQuiet seen (
              once drivers cached
                (outside drivers drivers.load_settings)
                (λ s q. record q { settings = some s }))
      once-IsQuiet (some s) q = refl
      once-IsQuiet none q =
          bind-IsQuiet seen (outside drivers drivers.load_settings) _ (λ q'. quiet q'.outside)
            (λ s q'. refl) q

  set_up_logging-IsQuiet :
      (name : Option String) → IsQuiet seen (set_up_logging drivers alembic name)
  unfolding set_up_logging
  set_up_logging-IsQuiet none p = refl
  set_up_logging-IsQuiet (some name) p = laws.quiet_file name p.outside

  set_up-IsQuiet : IsQuiet server drivers.load_settings → IsQuiet seen (set_up drivers alembic)
  unfolding set_up
  set_up-IsQuiet quiet p =
      bind-IsQuiet seen (set_up_logging drivers alembic (alembic.config_file_name p.outside)) _
        (set_up_logging-IsQuiet _)
        (λ _.
          bind-IsQuiet seen (get_settings drivers) _ (get_settings-IsQuiet quiet)
            (λ settings p'. laws.quiet_option _ _ p'.outside))
        p

  -- Online, with the laws of Alembic for a command and over settings whose reading leaves the server
  -- alone: whatever raises, alembic/env.py leaves the committed version and schema as they were and raises,
  -- or makes of them what the command makes of a server of this version: `upgrade` of one at the base,
  -- `downgrade` of one at the head, and else nothing.
  pub env_module-IsMigrated :
      IsQuiet server drivers.load_settings
      → ((g : G) → alembic.is_offline_mode g ≡ false)
      → (p : Process G E F P)
      → let (r, p') = env_module drivers alembic p in
        IsMigrated server (migrated execute command) p.outside r p'.outside
  unfolding env_module
  env_module-IsMigrated quiet online p =
      quiet-IsMigrated seen goal (set_up drivers alembic) _ p (set_up-IsQuiet quiet)
        (λ _ p'. rw (online p'.outside) (online-IsMigrated p'.outside))
