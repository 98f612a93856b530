-- ===== src/System/Creation.antt =====
-- A job that was created, or found for its idempotency key, is there for every session; only then is its
-- task handed over.
use loglens_api.Base.{
  ◌≡◌, refl, sym, subst, ◌+◌, Bool, true, false, ◌||◌, Option, none, some, List, arith, inl, inr,
  Bool-cases,
}
use loglens_api.Text.{Text}
use loglens_api.Table.{find_first, insert_row}
use loglens_api.Table.Laws.{find_first-All, find_first-insert_row}
use loglens_api.Text.Laws.{text_eq_refl}
use loglens_api.Models.{BackgroundJob}
use loglens_api.Errors.{integrity_error}
use loglens_api.Effect.{Env, World, Action, Result, ok, err}
use loglens_api.Effect.Laws.{bind-ok, bind-err}
use loglens_api.Repositories.Users.{is_some}
use loglens_api.Repositories.Jobs.{
  JobRequest, has_job_id, has_idempotency_key, is_active_in_scope, new_job,
  get_by_job_type_and_idempotency_key, get_active_by_scope,
}
use loglens_api.Repositories.Jobs as job_repo
use loglens_api.Jobs.{
  create_new_job, create_job, count_and_commit, create_unless, find_active, find_existing,
  reuse_or_create, increment_background_jobs_created, hashes_differ,
}
use loglens_api.System.Sound.{HasJob, DbIsSound, IsSound}
use loglens_api.System.JobRows.{HasJob-found, insertion-JobsAreSound}
use loglens_api.System.JobActions.{jobs-DbIsSound}
use loglens_api.System.Steps.{own_jobs}

-- Every session sees a job of the id.
abbrev pub IsCreated : {env : Env} → Text → World env → Type 0
IsCreated id w = HasJob id w.committed.background_jobs × HasJob id w.working.background_jobs

-- The outcome of a creation.
abbrev pub Created : {env : Env} → Result BackgroundJob × World env → Type 0
Created o = IsSound o.1 × ((job : BackgroundJob) → o.0 ≡ ok job → IsCreated job.id o.1)

abbrev pub Creates : {env : Env} → World env → Action env BackgroundJob → Type 0
Creates w m = Created (m w)

-- The three look-ups of an insertion.
abbrev clashes : Text → JobRequest → List BackgroundJob → Bool
clashes id r js =
    is_some (find_first (has_job_id id) js)
    || is_some (find_first (has_idempotency_key r.job_type r.idempotency_key) js)
    || is_some (find_first (is_active_in_scope r.job_type r.scope_key) js)

module _ {env : Env} (id : Text) (r : JobRequest) (w : World env) where
  insertion_clashes :
      clashes id r w.working.background_jobs ≡ true
      → job_repo.create_job {env = env} id r w ≡ (err integrity_error, w)
  unfolding job_repo.create_job
  insertion_clashes e = ground arith

  insertion_fits :
      clashes id r w.working.background_jobs ≡ false
      → job_repo.create_job {env = env} id r w ≡ (
        ok (new_job id w.transaction_time r),
        record w {
          working = record w.working {
            background_jobs =
                insert_row (new_job id w.transaction_time r) w.working.background_jobs;
          };
        },
      )
  unfolding job_repo.create_job
  insertion_fits e = ground arith

module _ (env : Env) (r : JobRequest) (w : World env) (h : IsSound w) where
  abbrev created : BackgroundJob
  created = new_job (env.uuid4 w.draws) w.transaction_time r

  insertion-IsSound :
      find_first (has_job_id created.id) w.working.background_jobs ≡ none
      → find_first (has_idempotency_key r.job_type r.idempotency_key) w.working.background_jobs
        ≡ none
      → find_first (is_active_in_scope r.job_type r.scope_key) w.working.background_jobs ≡ none
      → DbIsSound w.sequences w.queue
          (record w.working { background_jobs = insert_row created w.working.background_jobs })
  insertion-IsSound id key scope =
      jobs-DbIsSound h.1
        (insertion-JobsAreSound w.queue w.working.background_jobs h.1.jobs created id key scope)

  create_unless-Creates : (active : Option BackgroundJob) → Creates w (create_unless env r active)
  unfolding increment_background_jobs_created
  create_unless-Creates (some x) = (h, λ job e. absurd (cc e))
  create_unless-Creates none =
      let w1 : World env = record w { draws = w.draws + 1 } in
      let creation : Action env BackgroundJob = job_repo.create_job created.id r in
      elim (Bool-cases (clashes created.id r w.working.background_jobs)) [
        | inl e ↦
            subst Created
              (sym (
                bind-err creation (count_and_commit env r) w1
                  (insertion_clashes created.id r w1 e)))
              (h, λ job made. absurd (cc made))
        | inr e ↦
            let id : find_first (has_job_id created.id) w.working.background_jobs ≡ none =
              ground arith in
            let key : find_first (has_idempotency_key r.job_type r.idempotency_key)
                  w.working.background_jobs
                ≡ none =
              ground arith in
            let scope : find_first (is_active_in_scope r.job_type r.scope_key)
                  w.working.background_jobs
                ≡ none =
              ground arith in
            let after = insertion-IsSound id key scope in
            subst Created
              (sym
                (bind-ok creation (count_and_commit env r) w1 (insertion_fits created.id r w1 e)))
              (
                (after, after, own_jobs (insert_row created w.working.background_jobs)),
                λ job made.
                    let same : created ≡ job = ground arith in rw (← same) (there id, there id),
              )
      ]
    where
      there :
          find_first (has_job_id created.id) w.working.background_jobs ≡ none
          → HasJob created.id (insert_row created w.working.background_jobs)
      there id =
          rw
            (find_first-insert_row (has_job_id created.id) created w.working.background_jobs id
              (text_eq_refl created.id))
            refl

  create_new_job-Creates : Creates w (create_new_job env r)
  unfolding create_new_job get_active_by_scope
  create_new_job-Creates =
      let (active, e) = active_lookup r.scope_key in
      subst Created (sym (bind-ok (find_active env r r.scope_key) (create_unless env r) w e))
        (create_unless-Creates active)
    where
      active_lookup :
          (scope : Option Text)
          → (active : Option BackgroundJob) × (find_active env r scope w ≡ (ok active, w))
      active_lookup none = (none, refl)
      active_lookup (some s) = (_, refl)

  -- A job that is found for the key of the request.
  found-IsCreated :
      (p : BackgroundJob → Bool) {job : BackgroundJob}
      → find_first p w.working.background_jobs ≡ some job
      → IsCreated job.id w
  found-IsCreated p found = (
    find_first-All _ p w.working.background_jobs h.2 found,
    HasJob-found p w.working.background_jobs found,
  )

  reuse-Creates :
      (existing : Option BackgroundJob)
      → ((job : BackgroundJob) → existing ≡ some job → IsCreated job.id w)
      → Creates w (reuse_or_create env r existing)
  reuse-Creates none known = create_new_job-Creates
  reuse-Creates (some x) known =
      elim (Bool-cases (hashes_differ x.payload.request_hash r.payload.request_hash)) [
        | inl differ ↦ rw differ (h, λ job e. absurd (cc e))
        | inr agree ↦
            rw agree (h, λ job e. let same : x ≡ job = ground arith in rw (← same) (known x refl))
      ]

  -- A creation keeps the tables sound, and every session sees the job that it gives.
  pub create_job-Creates : Creates w (create_job env r)
  unfolding create_job get_by_job_type_and_idempotency_key
  create_job-Creates =
      let (existing, e, known) = key_lookup r.idempotency_key in
      subst Created
        (sym (bind-ok (find_existing env r r.idempotency_key) (reuse_or_create env r) w e))
        (reuse-Creates existing known)
    where
      key_lookup :
          (key : Option Text)
          → (existing : Option BackgroundJob) × (find_existing env r key w ≡ (ok existing, w))
            × ((job : BackgroundJob) → existing ≡ some job → IsCreated job.id w)
      key_lookup none = (none, refl, λ job e. absurd (cc e))
      key_lookup (some k) = (_, refl, λ job. found-IsCreated _)
