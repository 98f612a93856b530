-- ===== src/Workers/BulkLaws.antt =====
-- The bulk ingestion job: every item is tried once, each is counted, and the job ends.
use loglens_api.Base.{
  ℕ, suc, ◌+◌, ◌≡◌, refl, sym, subst, none, some, List, [], ◌∷◌, inl, inr, Bool-cases, arith, ap,
  ◌∙◌, length, if◌then◌else◌, length-append,
}
use loglens_api.Text.{Text}
use loglens_api.Text.Laws.{text_eq_refl}
use loglens_api.Table.{find_first}
use loglens_api.Table.Laws.{find_first-update_where, length-insert_row}
use loglens_api.Models.{BackgroundJob, LogIngestRequest, Log}
use loglens_api.Errors.{Error}
use loglens_api.Effect.{Env, World, Result, ok, err}
use loglens_api.Repositories.Jobs.{has_job_id, save_job, update_progress, progressed_job}
use loglens_api.Logs.{persist_log}
use loglens_api.Logs.Grouping.{persist_log-outcome}
use loglens_api.Workers.Bulk.{Progress, tally, attempt, report_progress, ingest_item, ingest_items}

-- The row of the job is the object that the worker holds.
abbrev pub IsTracked : {env : Env} → BackgroundJob → World env → Type 0
IsTracked job w = find_first (has_job_id job.id) w.working.background_jobs ≡ some job

same_id_kept :
    (id : Text) (x y : BackgroundJob)
    → y.id ≡ x.id
    → has_job_id id (if has_job_id id x then y else x) ≡ has_job_id id x
same_id_kept id x y e = elim (Bool-cases (has_job_id id x)) [ inl t ↦ rw (t, e) t | inr f ↦ rw f f ]

-- Saving a tracked job leaves it tracked, and touches no log.
pub save_job-IsTracked :
    {env : Env} (change : BackgroundJob → BackgroundJob) (job : BackgroundJob) (w : World env)
    → ((j : BackgroundJob) → (change j).id ≡ j.id)
    → IsTracked job w
    → let saved = record (change job) { updated_at = w.transaction_time } in
      ((save_job change job w).0 ≡ ok saved)
      × IsTracked saved (save_job change job w).1
      × ((save_job change job w).1.working.logs ≡ w.working.logs)
unfolding save_job
save_job-IsTracked change job w keeps tracked =
    let stamped : BackgroundJob → BackgroundJob =
      λ j. record (change j) { updated_at = w.transaction_time } in
    let found =
      find_first-update_where (has_job_id job.id) (has_job_id job.id) stamped
        w.working.background_jobs (λ x. same_id_kept job.id x (stamped x) (keeps x)) in
    let here : find_first (has_job_id job.id) (save_job change job w).1.working.background_jobs
        ≡ some (stamped job) =
      found ∙ rw (tracked, text_eq_refl job.id) refl in
    (
      refl,
      subst
          (λ i.
            find_first (has_job_id i) (save_job change job w).1.working.background_jobs
            ≡ some (stamped job))
          (sym (keeps job)) here,
      refl,
    )

module _ (env : Env) where
  pub attempt_ok :
      (item : LogIngestRequest) (w : World env) {log : Log}
      → (persist_log env item w).0 ≡ ok log
      → attempt env item w ≡ (ok (ok log), (persist_log env item w).1)
  unfolding attempt
  attempt_ok item w h = ground arith

  pub attempt_err :
      (item : LogIngestRequest) (w : World env) {e : Error}
      → persist_log env item w ≡ (err e, w)
      → attempt env item w ≡ (ok (err e), w)
  unfolding attempt
  attempt_err item w h = ground arith

  -- What one item does to the logs: it adds one, or it fails and adds none.
  attempt-outcome :
      (item : LogIngestRequest) (w : World env)
      → (r : Result Log) × ((attempt env item w).0 ≡ ok r)
        × ((attempt env item w).1.working.background_jobs ≡ w.working.background_jobs)
        × ((p : Progress) (index : ℕ)
            → (length (attempt env item w).1.working.logs + p.success_count
                ≡ length w.working.logs + (tally env index p r).success_count)
              × ((tally env index p r).success_count + length (tally env index p r).failures
                  ≡ suc (p.success_count + length p.failures))
              × ((tally env index p r).job ≡ p.job))
  attempt-outcome item w = elim (persist_log-outcome env item w) [
    | inl (log, answer, logs, jobs) ↦ rw (attempt_ok item w answer) (
      ok log,
      refl,
      jobs,
      λ p index. (rw (logs, length-insert_row log w.working.logs) (omega arith), omega arith, refl),
    )
    | inr e ↦ rw (attempt_err item w e) (
      err _,
      refl,
      refl,
      λ p index. (omega arith, rw (length-append p.failures (_ ∷ [])) (omega arith), refl),
    )
  ]

  -- The state between two items: the row of the job is the worker's object, it shows the worker's
  -- counts, and everything is committed.
  abbrev pub IsReported : ℕ → Progress → World env → Type 0
  IsReported processed p w =
      IsTracked p.job w
      × (p.job.processed_items ≡ processed)
      × (p.job.success_count ≡ p.success_count)
      × (p.job.failure_count ≡ length p.failures)
      × (w.committed ≡ w.working)

  report_progress-step :
      (index : ℕ) (p : Progress) (w : World env)
      → IsTracked p.job w
      → (p' : Progress) × ((report_progress env index p w).0 ≡ ok p')
        × IsReported (index + 1) p' (report_progress env index p w).1
        × ((report_progress env index p w).1.working.logs ≡ w.working.logs)
        × (p'.success_count ≡ p.success_count)
        × (p'.failures ≡ p.failures)
        × (p'.job.id ≡ p.job.id)
  unfolding report_progress update_progress save_job
  report_progress-step index p w tracked =
      let (answer, found, logs) =
        save_job-IsTracked
          (progressed_job (index + 1) p.success_count (length p.failures)
            (some (record p.job.payload { failures = some p.failures })) none)
          p.job w (λ j. refl) tracked in
      (_, refl, (found, refl, refl, refl, refl), logs, refl, refl, refl)

  ingest_item-runs :
      (index : ℕ) (p : Progress) (item : LogIngestRequest) (w : World env) {r : Result Log}
      → (attempt env item w).0 ≡ ok r
      → ingest_item env index p item w
        ≡ report_progress env index (tally env index p r) (attempt env item w).1
  unfolding ingest_item
  ingest_item-runs index p item w h = ground arith

  ingest_item-step :
      (index : ℕ) (p : Progress) (item : LogIngestRequest) (w : World env)
      → IsTracked p.job w
      → let (answer, w') = ingest_item env index p item w in
        (p' : Progress) × (answer ≡ ok p')
        × IsReported (index + 1) p' w'
        × (length w'.working.logs + p.success_count ≡ length w.working.logs + p'.success_count)
        × (p'.success_count + length p'.failures ≡ suc (p.success_count + length p.failures))
        × (p'.job.id ≡ p.job.id)
  ingest_item-step index p item w tracked =
      let (r, answer, jobs, counts) = attempt-outcome item w in
      let (logs, counted, same) = counts p index in
      let w1 : World env = (attempt env item w).1 in
      let tracked1 : IsTracked (tally env index p r).job w1 = rw (same, jobs) tracked in
      let (p', ok_p', reported, logs', success, failed, id) =
        report_progress-step index (tally env index p r) w1 tracked1 in
      rw (ingest_item-runs index p item w answer) (
        p',
        ok_p',
        reported,
        rw (logs', success) logs,
        rw (success, failed) counted,
        id ∙ ap (λ j. j.id) same,
      )

  ingest_items-runs :
      (index : ℕ) (p : Progress) (item : LogIngestRequest) (items : List LogIngestRequest)
      (w : World env) {p' : Progress}
      → (ingest_item env index p item w).0 ≡ ok p'
      → ingest_items env index p (item ∷ items) w
        ≡ ingest_items env (index + 1) p' items (ingest_item env index p item w).1
  unfolding ingest_items
  ingest_items-runs index p item items w h = ground arith

  ingest_items-end :
      (index : ℕ) (p : Progress) (w : World env) → ingest_items env index p [] w ≡ (ok p, w)
  unfolding ingest_items
  ingest_items-end index p w = refl

  -- The loop always comes to its end. Each item was counted once, as a success, for which one log was
  -- added, or as a failure; what is in the job's row and in the logs is committed.
  pub ingest_items-counts :
      (index : ℕ) (p : Progress) (item : LogIngestRequest) (items : List LogIngestRequest)
      (w : World env)
      → IsTracked p.job w
      → let (answer, w') = ingest_items env index p (item ∷ items) w in
        (p' : Progress) × (answer ≡ ok p')
        × IsReported (index + length (item ∷ items)) p' w'
        × (length w'.working.logs + p.success_count ≡ length w.working.logs + p'.success_count)
        × (p'.success_count + length p'.failures
            ≡ length (item ∷ items) + (p.success_count + length p.failures))
        × (p'.job.id ≡ p.job.id)
  ingest_items-counts index p item [] w tracked =
      let (p1, answer1, reported1, logs1, counted1, id1) =
        ingest_item-step index p item w tracked in
      rw (ingest_items-runs index p item [] w answer1) (
        rw (ingest_items-end (index + 1) p1 (ingest_item env index p item w).1)
          (p1, refl, reported1, logs1, omega arith, id1))
  ingest_items-counts index p item (next ∷ rest) w tracked =
      let (p1, answer1, reported1, logs1, counted1, id1) =
        ingest_item-step index p item w tracked in
      let w1 : World env = (ingest_item env index p item w).1 in
      let (p', answer, reported, logs, counted, id) =
        ingest_items-counts (index + 1) p1 next rest w1 reported1.0 in
      rw (ingest_items-runs index p item (next ∷ rest) w answer1)
        (p', answer, rw (move_suc index (length rest)) reported, omega arith, omega arith, id ∙ id1)
    where
      move_suc : (n k : ℕ) → n + suc (suc k) ≡ n + 1 + suc k
      move_suc n k = omega arith
