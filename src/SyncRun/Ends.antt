-- ===== src/SyncRun/Ends.antt =====
-- How a run ends, as its journal says.
use Prim.Native.Char.{Char}
use codex_sync.Base.{
  String, ==_refl, Bool, true, false, Option, none, some, [], lookup, lookup-insert, if◌then◌else◌,
  Dict, Result, ok, err, ◌≡◌, refl, sym, subst, ap, ◌∙◌, inl, inr,
}
use codex_sync.Models.{SyncPlan}
use codex_sync.Journal.{
  JournalState, prepared, backed_up, committing, committed, failed, recovery_required,
  is_before_commit, may_follow, MutationJournal, Store, Disk, transition, put, Request, new_journal,
  after_close, begin,
}
use codex_sync.Journal.Begin.{begin-inversion}
use codex_sync.Journal.Writes.{Refuses}
use codex_sync.Journal.States.{is_committing}
use codex_sync.Engine.State.{EngineError, World, Hook, call}
use codex_sync.Engine.Unstaging.{Framed, unstage-Post}
use codex_sync.Engine.{sided, apply_plan, unstage, execute}
use codex_sync.Engine.Posts.{Post, Post-after}
use codex_sync.SyncRun.{
  Run, Context, SyncError, if_agreed, interrupted, advance, engine, outside, attempt, settle,
  with_hooks, journalled, run_sync, sync_request,
}
use codex_sync.SyncRun.Phases.{
  Fits, Phase, early, late, over, At, Committing, Goes, advance-cases, advance-Goes,
  apply_plan-Phase,
}

-- What the last state of a run's journal says of the files; where the file system refuses journals the
-- last state may not be written.
pub data Ending (disk : Disk) (before now : Dict String) : JournalState → Type 0 where
  finished : Ending disk before now committed
  untouched : now ≡ before → Ending disk before now failed
  unsure : Ending disk before now recovery_required
  stuck_early :
      {state : JournalState}
      → is_before_commit state ≡ true
      → now ≡ before
      → Refuses disk
      → Ending disk before now state
  stuck_late : Refuses disk → Ending disk before now committing

-- What the folder of journals says when the run has ended.
pub record Told (disk : Disk) (id : String) (before now : Dict String) (store : Store)
    (answer : Result SyncError (Unit {0})) : Type 0 where
  pub journal : MutationJournal
  pub is_stored : lookup id store ≡ some (some journal)
  pub ending : Ending disk before now journal.state
  pub answered : answer ≡ ok tt → journal.state ≡ committed

module _ {ℓ} {W : Type ℓ} (ctx : Context W) (id : String) (files : Dict String) where
  abbrev Ahead : World (Run W) → Type 0
  Ahead = Committing ctx id files

  execute-Phase :
      (plan : SyncPlan) (w : World (Run W))
      → At ctx id files prepared w
      → Post (λ _. Ahead) (Phase ctx id files) (execute (engine ctx) plan false w)
  unfolding execute
  execute-Phase plan w a =
      unstaged (apply_plan (engine ctx) (sided plan) plan.deletions w)
        (apply_plan-Phase ctx id files (sided plan) plan.deletions w a)
    where
      like :
          (v u : World (Run W))
          → Framed (engine ctx) v u
          → Phase ctx id files v
          → Phase ctx id files u
      like v u (s, os, e) p = subst (Phase ctx id files) (sym e) (same p)
        where
          same : Phase ctx id files v → Phase ctx id files (record v { staged = s; outcomes = os })
          same (early s b f e) = early s b f e
          same (late f) = late f
          same (over f) = over f

      unstaged :
          (r : Result EngineError (Unit {0}) × World (Run W))
          → Post (λ _. Ahead) (Phase ctx id files) r
          → Post (λ _. Ahead) (Phase ctx id files) (unstage (engine ctx) r)
      unstaged =
          unstage-Post (engine ctx) Ahead Ahead (Phase ctx id files)
            (λ v u (s, os, e) t f. subst Ahead (sym e) f) like
            (λ v u (s, os, e) f. late (subst Ahead (sym e) f))

  -- A step that knows the surroundings only leaves the journal alone.
  outside-Fits :
      (state : JournalState) (hook : Hook W) (w : World (Run W))
      → Fits ctx id state w.hooks
      → ((v : World (Run W)) → Fits ctx id state v.hooks → Phase ctx id files v)
      → Post
          (λ _ v. Fits ctx id state v.hooks)
          (Phase ctx id files)
          (call (some (outside ctx hook)) w)
  unfolding outside
  outside-Fits state hook w f phase = given (hook w.hooks.around)
    where
      given :
          (x : Result EngineError (Unit {0}) × W)
          → Post {A = Unit {0}}
              (λ _ v. Fits ctx id state v.hooks)
              (Phase ctx id files)
              (x.0, record w { hooks = record w.hooks { around = x.1 } })
      given (ok _, a) = record { is_in = f.is_in; is_named = f.is_named; is_stored = f.is_stored }
      given (err _, a) =
          phase _ (record { is_in = f.is_in; is_named = f.is_named; is_stored = f.is_stored })

  close-Fits :
      (w : World (Run W))
      → Ahead w
      → Post
          (λ _ v. Fits ctx id committed v.hooks)
          (Phase ctx id files)
          (call (some (advance ctx committed none)) w)
  close-Fits w f =
      given (advance ctx committed none w.hooks)
        (advance-Goes ctx id committing committed refl w.hooks f)
    where
      given :
          (x : Result EngineError (Unit {0}) × Run W)
          → Goes ctx id committing committed x
          → Post {A = Unit {0}}
              (λ _ v. Fits ctx id committed v.hooks)
              (Phase ctx id files)
              (x.0, record w { hooks = x.1 })
      given (ok _, r) g = g
      given (err _, r) g = late g

  attempt-Phase :
      (plan : SyncPlan) (w : World (Run W))
      → At ctx id files prepared w
      → Post (λ _ v. Fits ctx id committed v.hooks) (Phase ctx id files) (attempt ctx plan w)
  unfolding attempt
  attempt-Phase plan w a =
      Post-after {Q = λ _ v. Fits ctx id committed v.hooks} (λ _ v. Fits ctx id committed v.hooks)
        (Phase ctx id files) _ _
        (Post-after {Q = λ _. Ahead} (λ _ v. Fits ctx id committed v.hooks) (Phase ctx id files) _ _
          (Post-after {Q = λ _. Ahead} (λ _. Ahead) (Phase ctx id files) _ _
            (execute-Phase plan w a)
            λ _ v f. outside-Fits committing ctx.save_baseline v f λ _. late)
          λ _ v f. close-Fits v f)
        λ _ v f. outside-Fits committed ctx.prune v f λ _. over

  told :
      {r : Run W} {now : Dict String} (state : JournalState)
      → Fits ctx id state r
      → Ending ctx.disk files now state
      → (answer : Result SyncError (Unit {0})) → (answer ≡ ok tt → state ≡ committed)
      → Told ctx.disk id files now r.store answer
  told {r} state f e answer h = record {
    journal = r.current;
    is_stored = f.is_stored;
    ending = subst (Ending ctx.disk files _) (sym f.is_in) e;
    answered = λ k. f.is_in ∙ h k;
  }

  no_answer :
      (e : EngineError) (state : JournalState)
      → ◌≡◌ {A = Result SyncError (Unit {0})} (err (interrupted e)) (ok tt)
      → state ≡ committed
  no_answer e state h = cc

  -- A last state that the journal may take.
  closed :
      {r : Run W} {now : Dict String} (e : EngineError) (state next target : JournalState)
      → Fits ctx id state r
      → may_follow state next ≡ true
      → Ending ctx.disk files now next
      → (Refuses ctx.disk → Ending ctx.disk files now state)
      → target ≡ next
      → Told ctx.disk id files now
          (advance ctx target (some (ctx.class_name e)) r).1.store
          (err (interrupted e))
  closed {r} {now} e state next target f allowed ending stuck same =
      subst
        (λ x.
          Told ctx.disk id files now (advance ctx x (some (ctx.class_name e)) r).1.store
            (err (interrupted e)))
        (sym same)
        (elim (advance-cases ctx id state next (some (ctx.class_name e)) allowed r f) [
          | inl (_, g) ↦ told next g ending _ (no_answer e next)
          | inr (d, denied) ↦
              subst
                (λ (x : Result EngineError (Unit {0}) × Run W).
                  Told ctx.disk id files now x.1.store (err (interrupted e)))
                (sym d) (told state f (stuck denied) _ (no_answer e state))
        ])

  -- One that it may not take.
  advance-refused :
      (next : JournalState) (name : Option String) (r : Run W)
      → may_follow r.current.state next ≡ false
      → (advance ctx next name r).1 ≡ r
  unfolding advance transition
  advance-refused next name r h = rw (h, advance, transition) refl

  -- After the `except` clause.
  settle-Told :
      (r : Result EngineError (Unit {0}) × World (Run W))
      → Post (λ _ v. Fits ctx id committed v.hooks) (Phase ctx id files) r
      → Told ctx.disk id files (settle ctx r).1.files (settle ctx r).1.hooks.store (settle ctx r).0
  unfolding settle
  settle-Told (ok _, w) f = told committed f finished _ λ _. refl
  settle-Told (err e, w) (late f) =
      closed e committing recovery_required _ f refl unsure stuck_late
        (ap (λ s. if is_committing s then recovery_required else failed) f.is_in)
  settle-Told (err e, w) (over f) =
      let t : (if is_committing w.hooks.current.state then recovery_required else failed) ≡ failed =
        ap (λ s. if is_committing s then recovery_required else failed) f.is_in in
      subst
        (λ x.
          Told ctx.disk id files w.files (advance ctx x (some (ctx.class_name e)) w.hooks).1.store
            (err (interrupted e)))
        (sym t)
        (subst (λ (r : Run W). Told ctx.disk id files w.files r.store (err (interrupted e)))
          (sym (
            advance-refused failed (some (ctx.class_name e)) w.hooks
              (ap (λ s. may_follow s failed) f.is_in)))
          (told committed f finished _ (no_answer e committed)))
  settle-Told (err e, w) (early state b f s) = before state b f
    where
      before :
          (state : JournalState)
          → is_before_commit state ≡ true
          → Fits ctx id state w.hooks
          → Told ctx.disk id files w.files
              (advance ctx
                (if is_committing w.hooks.current.state then recovery_required else failed)
                (some (ctx.class_name e))
                w.hooks).1.store
              (err (interrupted e))
      before prepared b f =
          closed e prepared failed _ f refl (untouched s) (stuck_early refl s)
            (ap (λ s. if is_committing s then recovery_required else failed) f.is_in)
      before backed_up b f =
          closed e backed_up failed _ f refl (untouched s) (stuck_early refl s)
            (ap (λ s. if is_committing s then recovery_required else failed) f.is_in)
      before committing b f = cc
      before committed b f = cc
      before failed b f = cc
      before recovery_required b f = cc

-- The journal that `begin` answers with stands in the folder, under its id.
begin-Fits :
    (is_decimal : Char → Bool) (disk : Disk) (store : Store) (request : Request)
    (r' : Store × MutationJournal)
    → begin is_decimal disk store request ≡ ok r'
    → (r'.1.state ≡ prepared)
      × (r'.1.operation_id ≡ request.uuid)
      × (lookup request.uuid r'.0 ≡ some (some r'.1))
unfolding put new_journal
begin-Fits is_decimal disk store request r' h =
    rw (begin-inversion is_decimal disk store request h).result (
      refl,
      refl,
      lookup-insert request.uuid request.uuid _ (after_close is_decimal disk store request).0
          ∙ rw (==_refl request.uuid) refl,
    )

-- A run of a plan without conflicts, and no dry run, that has begun its journal leaves it, whatever the
-- operating system, the gate and the other hooks do: committed, or failed with every file as it was
-- before the run, or to be recovered. Only where the file system has refused a journal may it stay open
-- otherwise: prepared or backed up with every file as it was, or committing. It is committed when the
-- run returns.
pub run_sync-ends {ℓ} :
    {W : Type ℓ} (ctx : Context W) (is_decimal : Char → Bool) (plan : SyncPlan) (request : Request)
    (w : World (Store × W)) (r' : Store × MutationJournal)
    → plan.conflicts ≡ []
    → begin is_decimal ctx.disk w.hooks.0 (sync_request plan request) ≡ ok r'
    → Told ctx.disk request.uuid w.files
        (run_sync ctx is_decimal plan false request w).1.files
        (run_sync ctx is_decimal plan false request w).1.hooks.0
        (run_sync ctx is_decimal plan false request w).0
unfolding run_sync journalled sync_request
run_sync-ends {W} ctx is_decimal plan request w r' none_left begun = subst Good (sym reached) (
    settle-Told ctx request.uuid w.files _ (
      attempt-Phase ctx request.uuid w.files plan
        (with_hooks ctx w (record { store = r'.0; current = r'.1; around = w.hooks.1 }))
        (record {
          fits = record { is_in = stood.0; is_named = stood.1; is_stored = stood.2 };
          same = refl;
        })))
  where
    Good : Result SyncError (Unit {0}) × World (Store × W) → Type 0
    Good x = Told ctx.disk request.uuid w.files x.1.files x.1.hooks.0 x.0

    stood :
        (r'.1.state ≡ prepared)
        × (r'.1.operation_id ≡ request.uuid)
        × (lookup request.uuid r'.0 ≡ some (some r'.1))
    stood = begin-Fits is_decimal ctx.disk w.hooks.0 (sync_request plan request) r' begun

    reached :
        run_sync ctx is_decimal plan false request w
        ≡ journalled ctx is_decimal plan request w (ok r')
    reached =
        ap
          (λ cs. if_agreed ctx cs w (
            journalled ctx is_decimal plan request w
              (begin is_decimal ctx.disk w.hooks.0 (sync_request plan request))))
          none_left
        ∙ ap (journalled ctx is_decimal plan request w) begun
