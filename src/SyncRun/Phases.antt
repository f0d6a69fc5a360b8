-- ===== src/SyncRun/Phases.antt =====
-- How far the journal is when a step of the run ends, and what has become of the files by then.
use codex_sync.Base.{
  String, ==_refl, Bool, true, false, Option, none, some, List, lookup, insert, lookup-insert, Dict,
  Result, ok, err, ◌≡◌, refl, sym, ap, subst, ◌∙◌, ◌⊎◌, inl, inr,
}
use codex_sync.Models.{CopyAction, DeleteAction, Side}
use codex_sync.Journal.{
  JournalState, prepared, backed_up, committing, committed, is_before_commit, may_follow,
  MutationJournal, put,
}
use codex_sync.Journal.Writes.{Refuses, transition-cases}
use codex_sync.SafetyGate.{SafetyDecision, Refusal, sync, require}
use codex_sync.Engine.State.{EngineError, refused, World, Hook, call}
use codex_sync.Engine.{prepare, commit, apply_plan}
use codex_sync.Engine.Posts.{
  Post, Post-after, IsSteady, IsCalm, keep, replace_all-Keeps, remove_all-Keeps,
}
use codex_sync.Engine.Resting.{prepare-Rests}
use codex_sync.SyncRun.{
  Run, Context, advance, let_through, require_sync, commit_if, pre_commit, engine,
}

module _ {ℓ} {W : Type ℓ} (ctx : Context W) (id : String) where
  -- The journal of the run is in a state, on the disk too.
  pub record Fits (state : JournalState) (r : Run W) : Type 0 where
    pub is_in : r.current.state ≡ state
    pub is_named : r.current.operation_id ≡ id
    pub is_stored : lookup id r.store ≡ some (some r.current)

  -- After a hook that may take the journal on: it has when it returns, and has not when it raises.
  abbrev pub Goes : JournalState → JournalState → Result EngineError (Unit {0}) × Run W → Type 0
  Goes before next (ok _, r) = Fits next r
  Goes before next (err _, r) = Fits before r

  -- A legal step of the journal is taken, or the file system refuses to write it and nothing changes.
  pub advance-cases :
      (before next : JournalState) (failure : Option String)
      → may_follow before next ≡ true
      → (r : Run W) → Fits before r
      → (((advance ctx next failure r).0 ≡ ok tt) × Fits next (advance ctx next failure r).1)
        ⊎ ((advance ctx next failure r ≡ (err refused, r)) × Refuses ctx.disk)
  unfolding advance put
  advance-cases before next failure allowed r f =
      let h : may_follow r.current.state next ≡ true = rw f.is_in allowed in
      elim (transition-cases ctx.disk r.store r.current next failure (ctx.now r.around) h) [
        | inl e ↦
            rw (e, advance)
              (inl (
                refl,
                record { is_in = refl; is_named = f.is_named; is_stored = stored _ f.is_named },
              ))
        | inr (e, denied) ↦ rw (e, advance) (inr (refl, denied))
      ]
    where
      stored :
          (j : MutationJournal)
          → j.operation_id ≡ id
          → lookup id (insert j.operation_id (some j) r.store) ≡ some (some j)
      stored j e =
          ap (λ k. lookup id (insert k (some j) r.store)) e
          ∙ lookup-insert id id (some j) r.store
          ∙ rw (==_refl id) refl

  pub advance-Goes :
      (before next : JournalState)
      → may_follow before next ≡ true
      → (r : Run W) → Fits before r
      → Goes before next (advance ctx next none r)
  advance-Goes before next allowed r f = elim (advance-cases before next none allowed r f) [
    | inl (e, h) ↦ went (advance ctx next none r) e h
    | inr (e, _) ↦ subst (Goes before next) (sym e) f
  ]
    where
      went :
          (x : Result EngineError (Unit {0}) × Run W)
          → (x.0 ≡ ok tt)
          → Fits next x.1
          → Goes before next x
      went (ok _, v) e g = g
      went (err _, v) e g = cc

  require_sync-Fits :
      (state : JournalState) (final : Bool) (r : Run W)
      → Fits state r
      → Fits state (require_sync ctx final r).1
  unfolding require_sync
  require_sync-Fits state final r f = given (require ctx.gate sync final r.around)
    where
      given : (o : Option (Result Refusal SafetyDecision × W)) → Fits state (let_through ctx r o).1
      given none = f
      given (some (ok _, around)) = record {
        is_in = f.is_in;
        is_named = f.is_named;
        is_stored = f.is_stored;
      }
      given (some (err _, around)) = record {
        is_in = f.is_in;
        is_named = f.is_named;
        is_stored = f.is_stored;
      }

  pre_commit-Goes : (r : Run W) → Fits backed_up r → Goes backed_up committing (pre_commit ctx r)
  unfolding pre_commit
  pre_commit-Goes r f = given (require_sync ctx true r) (require_sync-Fits backed_up true r f)
    where
      given :
          (x : Result EngineError (Unit {0}) × Run W)
          → Fits backed_up x.1
          → Goes backed_up committing (commit_if ctx x)
      given (err e, v) g = g
      given (ok _, v) g = advance-Goes backed_up committing refl v g

  -- A run up to some step: before the commit no file differs; afterwards the journal says so.
  pub data Phase (files : Dict String) (w : World (Run W)) : Type 0 where
    early :
        (state : JournalState)
        → is_before_commit state ≡ true
        → Fits state w.hooks
        → w.files ≡ files
        → Phase files w
    late : Fits committing w.hooks → Phase files w
    over : Fits committed w.hooks → Phase files w

  module _ (files : Dict String) where
    -- Before the commit, with the journal in a state.
    pub record At (state : JournalState) (w : World (Run W)) : Type 0 where
      pub fits : Fits state w.hooks
      pub same : w.files ≡ files

    At-IsCalm :
        (state : JournalState) (final : Bool) → IsCalm (At state) (some (require_sync ctx final))
    At-IsCalm state final w h e a = record {
      fits =
          subst
            (λ (x : Option (Hook (Run W))).
              Fits state (elim x [ none ↦ w.hooks | some k ↦ (k w.hooks).1 ]))
            e (require_sync-Fits state final w.hooks a.fits);
      same = a.same;
    }

    prepare-At :
        (actions : List (Side × CopyAction)) (deletions : List DeleteAction) (w : World (Run W))
        → At prepared w
        → Post (λ _. At prepared) (At prepared) (prepare (engine ctx) actions deletions w)
    prepare-At actions deletions w a =
        prepare-Rests (engine ctx) (At prepared)
          (record {
            at_outcomes = λ v os b. record { fits = b.fits; same = b.same };
            at_saved = λ v es b. record { fits = b.fits; same = b.same };
            at_stamped = λ v b. record { fits = b.fits; same = b.same };
          })
          (record {
            at_outcomes = λ v os b. record { fits = b.fits; same = b.same };
            at_check = At-IsCalm prepared true;
          })
          (λ v d b. record { fits = b.fits; same = b.same }) (At-IsCalm prepared false) actions
          deletions w a

    abbrev pub Committing : World (Run W) → Type 0
    Committing w = Fits committing w.hooks

    abbrev steady : IsSteady (engine ctx) Committing
    steady = record {
      at_outcomes = λ v os f. f;
      at_check = λ w h e f.
          subst
            (λ (x : Option (Hook (Run W))).
              Fits committing (elim x [ none ↦ w.hooks | some k ↦ (k w.hooks).1 ]))
            e (require_sync-Fits committing true w.hooks f);
    }

    commit-Committing :
        (actions : List (Side × CopyAction)) (deletions : List DeleteAction) (w : World (Run W))
        → Committing w
        → Post (λ _. Committing) Committing (commit (engine ctx) actions deletions w)
    unfolding commit
    commit-Committing actions deletions w f =
        keep (engine ctx) Committing steady _ _
          (keep (engine ctx) Committing steady _ _
            (replace_all-Keeps (engine ctx) Committing steady actions (λ s a m c v g. g) w f)
            (λ _ v g. remove_all-Keeps (engine ctx) Committing steady deletions (λ d m u h. h) v g))
          (λ _ v g. g)

    -- A hook that takes the journal on.
    call-Goes :
        (before next : JournalState)
        → is_before_commit before ≡ true
        → (hook : Hook (Run W)) → ((r : Run W) → Fits before r → Goes before next (hook r))
        → (w : World (Run W)) → At before w
        → Post (λ _ v. Fits next v.hooks × (v.files ≡ files)) (Phase files) (call (some hook) w)
    call-Goes before next is_early hook goes w a = given (hook w.hooks) (goes w.hooks a.fits)
      where
        given :
            (x : Result EngineError (Unit {0}) × Run W)
            → Goes before next x
            → Post {A = Unit {0}}
                (λ _ v. Fits next v.hooks × (v.files ≡ files))
                (Phase files)
                (x.0, record w { hooks = x.1 })
        given (ok _, r) g = (g, a.same)
        given (err _, r) g = early before is_early g a.same

    pub apply_plan-Phase :
        (actions : List (Side × CopyAction)) (deletions : List DeleteAction) (w : World (Run W))
        → At prepared w
        → Post (λ _. Committing) (Phase files) (apply_plan (engine ctx) actions deletions w)
    unfolding apply_plan
    apply_plan-Phase actions deletions w a =
        Post-after {Q = λ _ v. Fits committing v.hooks × (v.files ≡ files)} (λ _. Committing)
          (Phase files) _ _
          (Post-after {Q = λ _ v. Fits backed_up v.hooks × (v.files ≡ files)}
            (λ _ v. Fits committing v.hooks × (v.files ≡ files)) (Phase files) _ _
            (Post-after {Q = λ _. At prepared} (λ _ v. Fits backed_up v.hooks × (v.files ≡ files))
              (Phase files) _ _
              (before (prepare (engine ctx) actions deletions w) (prepare-At actions deletions w a))
              λ _ v b.
                call-Goes prepared backed_up refl _ (advance-Goes prepared backed_up refl) v b)
            λ _ v (f, s).
              call-Goes backed_up committing refl _ pre_commit-Goes v
                (record { fits = f; same = s }))
          λ _ v (f, _).
            behind (commit (engine ctx) actions deletions v)
              (commit-Committing actions deletions v f)
      where
        before :
            (r : Result EngineError (Unit {0}) × World (Run W))
            → Post (λ _. At prepared) (At prepared) r
            → Post (λ _. At prepared) (Phase files) r
        before (ok _, v) b = b
        before (err _, v) b = early prepared refl b.fits b.same

        behind :
            (r : Result EngineError (Unit {0}) × World (Run W))
            → Post (λ _. Committing) Committing r
            → Post (λ _. Committing) (Phase files) r
        behind (ok _, v) f = f
        behind (err _, v) f = late f
