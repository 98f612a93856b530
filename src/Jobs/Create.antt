-- ===== src/Jobs/Create.antt =====
-- `JobService.create_job`: idempotency keys, scopes, and the gauge of active jobs.
use loglens_api.Base.{
  ◌≡◌, refl, true, false, ◌&&◌, Option, none, some, List, inl, inr, Bool-cases, Option-cases, arith,
  if◌then◌else◌, ap, ◌≤◌, ◌⊎◌, length,
}
use loglens_api.Text.{Text}
use loglens_api.Text.Laws.{text_eq_refl, text_eq→eq}
use loglens_api.Table.{find_first, select_where, insert_row}
use loglens_api.Table.Laws.{
  find_first-insert_row, select_where-none, length-select_where-insert_row,
}
use loglens_api.Models.{BackgroundJob}
use loglens_api.Models.Enums.{BackgroundJobType, job_type_eq, job_type_eq_refl, job_type_eq→eq}
use loglens_api.Errors.{conflict}
use loglens_api.Effect.{Action, Env, World, ok, err}
use loglens_api.Repositories.Jobs.{
  same_text, JobRequest, has_job_id, has_idempotency_key, is_active_in_scope, new_job,
  get_by_job_type_and_idempotency_key, get_active_by_scope,
}
use loglens_api.Repositories.Jobs as job_repo
use loglens_api.Repositories.Users.{is_some}
use loglens_api.Jobs.{
  hashes_differ, bump, key_reused, already_running, increment_background_jobs_created,
  create_new_job, create_job,
}

module _ (env : Env) (r : JobRequest) (w : World env) where
  abbrev jobs : List BackgroundJob
  jobs = w.working.background_jobs

  -- The row of a new job.
  abbrev pub created : BackgroundJob
  created = new_job (env.uuid4 w.draws) w.transaction_time r

  -- The state after the call.
  abbrev after : World env
  after = (create_job env r w).1

  -- A key that was used before gives the job that it was used for, and nothing changes; with another
  -- request's hash it is refused, and nothing changes either.
  pub create_job-known_key :
      (k : Text) (job : BackgroundJob)
      → r.idempotency_key ≡ some k
      → find_first (has_idempotency_key r.job_type (some k)) jobs ≡ some job
      → create_job env r w ≡ (
        if hashes_differ job.payload.request_hash r.payload.request_hash
            then err (conflict key_reused)
            else ok job,
        w,
      )
  unfolding create_job get_by_job_type_and_idempotency_key
  create_job-known_key k job key known = ground arith

  -- A scope that has an active job is refused, and nothing changes.
  pub create_job-busy_scope :
      (s : Text)
      → r.idempotency_key ≡ none
      → r.scope_key ≡ some s
      → is_some (find_first (is_active_in_scope r.job_type (some s)) jobs) ≡ true
      → create_job env r w ≡ (err (conflict already_running), w)
  unfolding create_job create_new_job get_active_by_scope
  create_job-busy_scope s key scope busy = ground arith

  -- With no job of its key, no active one in its scope and a new id, a pending job is added,
  -- committed and counted as active.
  pub create_job-new :
      find_first (has_idempotency_key r.job_type r.idempotency_key) jobs ≡ none
      → find_first (is_active_in_scope r.job_type r.scope_key) jobs ≡ none
      → find_first (has_job_id (env.uuid4 w.draws)) jobs ≡ none
      → let (answer, w') = create_job env r w in
        (answer ≡ ok created)
        × (w'.committed.background_jobs ≡ insert_row created jobs)
        × (w'.working ≡ w'.committed)
        × (w'.jobs_created ≡ bump r.job_type w.jobs_created)
  unfolding create_job create_new_job get_by_job_type_and_idempotency_key get_active_by_scope
      job_repo.create_job increment_background_jobs_created
  create_job-new key scope id = ground arith

unchanged_again :
    {env : Env} {A : Type 0} (m : Action env A) (w : World env) {a b : A}
    → m w ≡ (ok a, w)
    → (m w).0 ≡ ok b
    → m (m w).1 ≡ (ok b, (m w).1)
unchanged_again m w e h = rw (ap (λ p. p.1) e) (cc)

module _ (env : Env) (r : JobRequest) (w : World env) {job : BackgroundJob} where
  -- What a successful creation without a known key rests on.
  pub created_ok :
      find_first (has_idempotency_key r.job_type r.idempotency_key) w.working.background_jobs ≡ none
      → (create_job env r w).0 ≡ ok job
      → (find_first (is_active_in_scope r.job_type r.scope_key) w.working.background_jobs ≡ none)
        × (find_first (has_job_id (env.uuid4 w.draws)) w.working.background_jobs ≡ none)
  unfolding create_job create_new_job get_by_job_type_and_idempotency_key get_active_by_scope
      job_repo.create_job increment_background_jobs_created
  created_ok free h = (ground arith, ground arith)

  found_again :
      (k : Text)
      → r.idempotency_key ≡ some k
      → (create_job env r w).0 ≡ ok job
      → find_first (has_idempotency_key r.job_type (some k)) w.working.background_jobs ≡ none
      → (job ≡ created env r w)
        × (find_first
              (has_idempotency_key r.job_type (some k))
              (after env r w).working.background_jobs
            ≡ some job)
  found_again k key h free =
      let none_before : find_first (has_idempotency_key r.job_type r.idempotency_key)
            w.working.background_jobs
          ≡ none =
        rw key free in
      let (scope, id) = created_ok none_before h in
      let (answer, table, current, _) = create_job-new env r w none_before scope id in
      let same : job ≡ created env r w = ground arith in
      (
        same,
        rw (current, table, same)
            (find_first-insert_row (has_idempotency_key r.job_type (some k)) (created env r w)
              w.working.background_jobs free
              (rw (key, job_type_eq_refl r.job_type) (text_eq_refl k))),
      )

  -- A request with an idempotency key may be repeated: the second call gives the job of the first and
  -- changes nothing.
  pub create_job-repeated :
      (k : Text)
      → r.idempotency_key ≡ some k
      → (create_job env r w).0 ≡ ok job
      → create_job env r (after env r w) ≡ (ok job, after env r w)
  create_job-repeated k key h =
      elim (Option-cases
        (find_first (has_idempotency_key r.job_type (some k)) w.working.background_jobs)) [
          | inl free ↦
              let (same, found) = found_again k key h free in
              let kept : hashes_differ job.payload.request_hash r.payload.request_hash ≡ false =
                rw same (own_hash r.payload.request_hash) in
              rw (create_job-known_key env r (after env r w) k job key found, kept)
          | inr (old, known) ↦
              let first = create_job-known_key env r w k old key known in
              elim (Bool-cases (hashes_differ old.payload.request_hash r.payload.request_hash)) [
                | inl differ ↦ absurd (ground arith)
                | inr agree ↦
                    let answer : create_job env r w ≡ (ok old, w) = rw agree at first in
                    unchanged_again (create_job env r) w answer h
              ]
        ]
    where
      own_hash : (h : Option Text) → hashes_differ h h ≡ false
      own_hash none = refl
      own_hash (some h) = rw (text_eq_refl h)

-- At most one active job for each type and scope.
abbrev pub ScopesAreExclusive : List BackgroundJob → Type 0
ScopesAreExclusive js =
    (t : BackgroundJobType) (s : Text)
    → length (select_where (is_active_in_scope t (some s)) js) ≤ 1

create_job-jobs :
    (env : Env) (r : JobRequest) (w : World env)
    → ((after env r w).working.background_jobs ≡ w.working.background_jobs)
      ⊎ (((after env r w).working.background_jobs
            ≡ insert_row (created env r w) w.working.background_jobs)
          × (find_first (is_active_in_scope r.job_type r.scope_key) w.working.background_jobs
              ≡ none))
unfolding create_job create_new_job get_by_job_type_and_idempotency_key get_active_by_scope
    job_repo.create_job increment_background_jobs_created
create_job-jobs env r w = ground arith

in_scope :
    (t : BackgroundJobType) (s : Text) (r : JobRequest) (js : List BackgroundJob)
    → find_first (is_active_in_scope r.job_type r.scope_key) js ≡ none
    → job_type_eq r.job_type t && same_text r.scope_key (some s) ≡ true
    → find_first (is_active_in_scope t (some s)) js ≡ none
in_scope t s r js free fits =
    let type_is : r.job_type ≡ t = job_type_eq→eq r.job_type t (ground arith) in
    let scope_is : r.scope_key ≡ some s = scope_key_is r.scope_key (ground arith) in
    rw (← type_is, ← scope_is) free
  where
    scope_key_is : (k : Option Text) → same_text k (some s) ≡ true → k ≡ some s
    scope_key_is none h = cc
    scope_key_is (some a) h = ap some (text_eq→eq a s h)

-- Creating a job leaves at most one active job for each scope.
pub create_job-ScopesAreExclusive :
    (env : Env) (r : JobRequest) (w : World env)
    → ScopesAreExclusive w.working.background_jobs
    → ScopesAreExclusive (create_job env r w).1.working.background_jobs
create_job-ScopesAreExclusive env r w h t s = elim (create_job-jobs env r w) [
  | inl same ↦ rw same (h t s)
  | inr (table, free) ↦
      rw
        (
          table,
          length-select_where-insert_row (is_active_in_scope t (some s)) (created env r w)
              w.working.background_jobs,
        )
        (elim (Bool-cases (is_active_in_scope t (some s) (created env r w))) [
          | inr out ↦ rw out (omega (arith, h t s))
          | inl fits ↦
              rw
                (
                  fits,
                  select_where-none _ _
                      (in_scope t s r w.working.background_jobs free (ground arith)),
                )
                (omega arith)
        ])
]
