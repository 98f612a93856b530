-- ===== src/System/Requests.antt =====
-- Every request keeps the tables sound: a task is handed over only for a job that was committed.
use loglens_api.Base.{
  ◌≡◌, refl, Bool, true, false, Option, none, some, List, [], ◌∷◌, ◌++◌, All, arith, inl, inr,
  Option-cases, if◌then◌else◌,
}
use loglens_api.Text.{Text, codes}
use loglens_api.Text.Decimal.{ℤ}
use loglens_api.Models.{User, BackgroundJob}
use loglens_api.Effect.{
  Env, World, Db, Action, Result, ok, err, pure, QueuedTask, bulk_ingestion, group_analysis, ◌>>=◌,
  ◌>>◌,
}
use loglens_api.Effect.Keeps.{Keeps, Keeps-bind, Keeps-pure}
use loglens_api.Jobs.{JobAcceptedResponse, to_accepted_response, create_job}
use loglens_api.Table.{find_first}
use loglens_api.Repositories.ErrorGroups as group_repo
use loglens_api.Repositories.Users.{same_id}
use loglens_api.Logs.{
  BulkLogIngestRequest, request_hash, bulk_job, remember_job, accept_job,
  enqueue_bulk_ingestion_job,
}
use loglens_api.Analyses.{create_analysis_job, analysis_request}
use loglens_api.Workers.Bulk.{process_bulk_with_session}
use loglens_api.Workers.Analysis.{run_analysis_with_session}
use loglens_api.Api.Guards.{delay}
use loglens_api.Api.LogRoutes.{start_bulk}
use loglens_api.Api.GroupRoutes.{start_analysis}
use loglens_api.System.Sound.{HasJob, DbIsSound, IsSound, job_of}
use loglens_api.System.Creation.{IsCreated, create_job-Creates}
use loglens_api.System.Tasks.{process_bulk_with_session-IsSound}
use loglens_api.System.Analysis.{run_analysis_with_session-IsSound}

-- The outcome of an action that gives the id of a job.
abbrev pub Yields : {env : Env} {B : Type 0} → (B → Text) → Result B × World env → Type 0
Yields {B = B} id_of o = IsSound o.1 × ((b : B) → o.0 ≡ ok b → IsCreated (id_of b) o.1)

All-append :
    {A : Type 0} (P : A → Type 0) (xs : List A) (x : A) → All P xs → P x → All P (xs ++ x ∷ [])
All-append P [] x h px = (px, tt)
All-append P (y ∷ xs) x h px = (h.0, All-append P xs x h.1 px)

module _ {env : Env} where
  queued-DbIsSound :
      (w : World env) (task : QueuedTask) {d : Db}
      → DbIsSound w.sequences w.queue d
      → HasJob (job_of task) d.background_jobs
      → DbIsSound w.sequences (w.queue ++ task ∷ []) d
  queued-DbIsSound w task h there = record {
    users = h.users;
    tokens = h.tokens;
    logs = h.logs;
    jobs = record {
      ids = h.jobs.ids;
      keys = h.jobs.keys;
      scopes = h.jobs.scopes;
      queued = All-append _ w.queue task h.jobs.queued there;
    };
    analyses = h.analyses;
  }

  delay-IsSound :
      (task : QueuedTask) (w : World env)
      → IsSound w
      → IsCreated (job_of task) w
      → IsSound (delay {env = env} task w).1
  unfolding delay
  delay-IsSound task w h there =
      (queued-DbIsSound w task h.0 there.0, queued-DbIsSound w task h.1 there.1, h.2)

  -- What follows a creation, and gives its id.
  after-Created :
      {A B : Type 0} (id_of : A → Text) (id_of' : B → Text) (m : Action env A)
      (f : A → Action env B) (w : World env)
      → Yields id_of (m w)
      → ((a : A) (w' : World env) → IsSound w' → IsCreated (id_of a) w' → Yields id_of' (f a w'))
      → Yields id_of' ((m >>= f) w)
  after-Created {A = A} {B = B} id_of id_of' m f w h next = after (m w).0 (m w).1 h.0 h.1
    where
      after :
          (r : Result A) (w' : World env)
          → IsSound w'
          → ((a : A) → r ≡ ok a → IsCreated (id_of a) w')
          → Yields id_of'
              (elim r as (λ _. Result B × World env) [ ok a ↦ f a w' | err e ↦ (err e, w') ])
      after (ok a) w' h made = next a w' h (made a refl)
      after (err e) w' h made = (h, λ b k. absurd (cc k))

either-IsSound :
    {env : Env} {A : Type 0} (b : Bool) (m n : Action env A) (w : World env)
    → IsSound (m w).1
    → IsSound (n w).1
    → IsSound ((if b then m else n) w).1
either-IsSound true m n w hm hn = hm
either-IsSound false m n w hm hn = hn

accepted_id :
    (job : BackgroundJob) (r : JobAcceptedResponse)
    → ok (to_accepted_response job) ≡ ok r
    → r.job_id ≡ job.id
accepted_id job r e = ground arith

module _ (env : Env) where
  pub enqueue-Yields :
      (p : BulkLogIngestRequest) (user : User) (w : World env)
      → IsSound w
      → Yields (λ r. r.job_id) (enqueue_bulk_ingestion_job env p user w)
  unfolding enqueue_bulk_ingestion_job
  enqueue-Yields p user w h =
      after-Created (λ j. j.id) (λ r. r.job_id) (create_job env (bulk_job env p user))
        (accept_job env p) w (create_job-Creates env (bulk_job env p user) w h)
        (accept p.idempotency_key)
    where
      accept :
          (key : Option Text) (job : BackgroundJob) (w' : World env)
          → IsSound w'
          → IsCreated job.id w'
          → Yields
              (λ r. r.job_id)
              ((remember_job env key job.id (request_hash env p) >> pure (to_accepted_response job))
                w')
      accept none job w' h' there = (h', λ r e. rw (accepted_id job r e) there)
      accept (some k) job w' h' there = (h', λ r e. rw (accepted_id job r e) there)

  pub start_bulk-IsSound :
      (i : Text) (w : World env) → IsSound w → IsCreated i w → IsSound (start_bulk env i w).1
  start_bulk-IsSound i w h there =
      either-IsSound env.settings.celery_task_always_eager _ _ w (eager_bulk.at w h)
        (delay-IsSound (bulk_ingestion i) w h there)
    where
      eager_bulk :
          Keeps IsSound
            (do _ ← process_bulk_with_session env i (some (codes "eager")); pure (tt {0}))
      eager_bulk =
          Keeps-bind (process_bulk_with_session env i (some (codes "eager"))) _
            (process_bulk_with_session-IsSound env i (some (codes "eager"))) λ _. Keeps-pure tt

  pub start_analysis-IsSound :
      (i : Text) (w : World env) → IsSound w → IsCreated i w → IsSound (start_analysis env i w).1
  start_analysis-IsSound i w h there =
      either-IsSound env.settings.celery_task_always_eager _ _ w (eager_analysis.at w h)
        (delay-IsSound (group_analysis i) w h there)
    where
      eager_analysis :
          Keeps IsSound
            (do _ ← run_analysis_with_session env i (some (codes "eager")); pure (tt {0}))
      eager_analysis =
          Keeps-bind (run_analysis_with_session env i (some (codes "eager"))) _
            (run_analysis_with_session-IsSound env i (some (codes "eager"))) λ _. Keeps-pure tt

  -- A group that is there gets a job; the answer is its id.
  pub create_analysis_job-Yields :
      (z : ℤ) (user : User) (w : World env)
      → IsSound w
      → Yields (λ i. i) (create_analysis_job env z user w)
  unfolding create_analysis_job group_repo.get_by_id
  create_analysis_job-Yields z user w h =
      elim (Option-cases (find_first (λ g. same_id g.id z) w.working.error_groups)) [
        | inl gone ↦ rw gone (h, λ i e. absurd (cc e))
        | inr (group, found) ↦ rw found (
            after-Created (λ j. j.id) (λ i. i) (create_job env (analysis_request group.id user.id))
              (λ job. pure job.id) w
              (create_job-Creates env (analysis_request group.id user.id) w h)
              (λ job w' h' there.
                (h', λ i e. let same : job.id ≡ i = ground arith in rw (← same) there)))
      ]
