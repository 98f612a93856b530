-- ===== src/Analyses/Requests.antt =====
-- One analysis of a group at a time.
use loglens_api.Base.{
  ◌≡◌, refl, sym, subst, ap, ◌∙◌, true, false, none, some, arith, inl, inr, Option-cases,
}
use loglens_api.Text.{Text}
use loglens_api.Text.Decimal.{ℤ}
use loglens_api.Text.Laws.{text_eq_refl}
use loglens_api.Table.{find_first}
use loglens_api.Table.Laws.{find_first-insert_row, find_first-unfit, All-always}
use loglens_api.Models.{BackgroundJob, ErrorGroup, User}
use loglens_api.Models.Enums.{BackgroundJobType, job_type_eq_refl}
use loglens_api.Errors.{conflict}
use loglens_api.Effect.{Env, World, Action, Result, ok, err, pure, ◌>>=◌}
use loglens_api.Effect.Laws.{bind-err}
use loglens_api.Repositories.Users.{same_id, is_some}
use loglens_api.Repositories.ErrorGroups as group_repo
use loglens_api.Repositories.Jobs as job_repo
use loglens_api.Repositories.Jobs.{
  JobRequest, has_idempotency_key, is_active_in_scope, get_by_job_type_and_idempotency_key,
  get_active_by_scope,
}
use loglens_api.Jobs.{
  already_running, create_job, create_new_job, increment_background_jobs_created,
}
use loglens_api.Jobs.Create.{created, created_ok, create_job-new, create_job-busy_scope}
use loglens_api.Analyses.{analysis_request, create_analysis_job}

abbrev renamed : {env : Env} {A B : Type 0} → (A → B) → Result A → World env → Result B × World env
renamed f r w = elim r [ ok a ↦ (ok (f a), w) | err e ↦ (err e, w) ]

renamed-ok :
    {env : Env} {A B : Type 0} (f : A → B) (r : Result A) (w : World env) {b : B}
    → (renamed f r w).0 ≡ ok b
    → (a : A) × (r ≡ ok a) × ((renamed f r w).1 ≡ w)
renamed-ok f (ok a) w h = (a, refl, refl)
renamed-ok f (err e) w h = cc

-- A renamed answer comes from an answer, and changes no state.
pure-ok :
    {env : Env} {A B : Type 0} (f : A → B) (m : Action env A) (w : World env) {b : B}
    → ((m >>= λ a. pure (f a)) w).0 ≡ ok b
    → (a : A) × ((m w).0 ≡ ok a) × (((m >>= λ a. pure (f a)) w).1 ≡ (m w).1)
pure-ok f m w h = renamed-ok f (m w).0 (m w).1 h

no_key : (t : BackgroundJobType) (j : BackgroundJob) → has_idempotency_key t none j ≡ false
no_key t j = elim (Option-cases j.idempotency_key) [
  | inl e ↦ ground arith
  | inr (k, e) ↦ ground arith
]

module _ (env : Env) where
  create_analysis_job-creates :
      (group_id : ℤ) (user : User) (w : World env) {group : ErrorGroup}
      → find_first (λ g. same_id g.id group_id) w.working.error_groups ≡ some group
      → create_analysis_job env group_id user w
        ≡ (create_job env (analysis_request group.id user.id) >>= λ job. pure job.id) w
  unfolding create_analysis_job group_repo.get_by_id
  create_analysis_job-creates group_id user w found = ground arith

  create_job-groups :
      (r : JobRequest) (w : World env)
      → (create_job env r w).1.working.error_groups ≡ w.working.error_groups
  unfolding create_job create_new_job get_by_job_type_and_idempotency_key get_active_by_scope
      job_repo.create_job increment_background_jobs_created
  create_job-groups r w = ground arith

  found_group :
      (group_id : ℤ) (user : User) (w : World env) {id : Text}
      → (create_analysis_job env group_id user w).0 ≡ ok id
      → (group : ErrorGroup) × (find_first (λ g. same_id g.id group_id) w.working.error_groups
          ≡ some group)
  unfolding create_analysis_job group_repo.get_by_id
  found_group group_id user w h =
      elim (Option-cases (find_first (λ g. same_id g.id group_id) w.working.error_groups)) [
        | inl gone ↦ absurd (ground arith)
        | inr found ↦ found
      ]

  -- A job that was created is active in its scope.
  scope_taken :
      (r : JobRequest) (w : World env) {s : Text} {job : BackgroundJob}
      → r.idempotency_key ≡ none
      → r.scope_key ≡ some s
      → (create_job env r w).0 ≡ ok job
      → is_some (
          find_first
            (is_active_in_scope r.job_type (some s))
            (create_job env r w).1.working.background_jobs)
        ≡ true
  scope_taken r w {s = s} key scope accepted =
      let free =
        find_first-unfit (has_idempotency_key r.job_type r.idempotency_key)
          w.working.background_jobs
          (All-always _ w.working.background_jobs (λ j.
            subst (λ k. has_idempotency_key r.job_type k j ≡ false) (sym key)
              (no_key r.job_type j))) in
      let (no_rival, no_twin) = created_ok env r w free accepted in
      let (_, table, current, _) = create_job-new env r w free no_rival no_twin in
      let taken =
        find_first-insert_row (is_active_in_scope r.job_type r.scope_key) (created env r w)
          w.working.background_jobs no_rival
          (rw (scope, job_type_eq_refl r.job_type, text_eq_refl s) refl) in
      subst
        (λ k.
          is_some (
            find_first (is_active_in_scope r.job_type k)
              (create_job env r w).1.working.background_jobs)
          ≡ true)
        scope (rw (current, table, taken) refl)

  -- Right after a request for the analysis of a group was accepted, a further one for the same group is
  -- refused as a conflict, whoever asks, and it changes nothing.
  pub create_analysis_job-exclusive :
      (group_id : ℤ) (user other : User) (w : World env) {id : Text}
      → (create_analysis_job env group_id user w).0 ≡ ok id
      → let w' : World env = (create_analysis_job env group_id user w).1 in
        create_analysis_job env group_id other w' ≡ (err (conflict already_running), w')
  create_analysis_job-exclusive group_id user other w accepted =
      let (group, found) = found_group group_id user w accepted in
      let r : JobRequest = analysis_request group.id user.id in
      let creates = create_analysis_job-creates group_id user w found in
      let (job, created_it, after) =
        pure-ok (λ (j : BackgroundJob). j.id) (create_job env r) w
          (ap (λ o. o.0) (sym creates) ∙ accepted) in
      let state : (create_analysis_job env group_id user w).1 ≡ (create_job env r w).1 =
        ap (λ o. o.1) creates ∙ after in
      let w1 : World env = (create_job env r w).1 in
      let busy = scope_taken r w refl refl created_it in
      let again =
        create_analysis_job-creates group_id other w1
          (ap (find_first (λ g. same_id g.id group_id)) (create_job-groups r w) ∙ found) in
      let refused =
        create_job-busy_scope env (analysis_request group.id other.id) w1 _ refl refl busy in
      subst
        (λ (v : World env).
          create_analysis_job env group_id other v ≡ (err (conflict already_running), v))
        (sym state)
        (again
          ∙ bind-err (create_job env (analysis_request group.id other.id)) (λ j. pure j.id) w1
              refused)
