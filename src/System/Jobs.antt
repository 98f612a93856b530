-- ===== src/System/Jobs.antt =====
-- The repository of jobs keeps the tables sound.
use loglens_api.Base.{
  ◌≡◌, sym, ap, true, false, not, ◌&&◌, Option, none, some, List, [], ◌∷◌, arith, inl, inr, ◌∙◌,
  Bool-cases, if◌then◌else◌, All,
}
use loglens_api.Text.{Text, text_eq}
use loglens_api.Table.{find_first, update_where}
use loglens_api.Table.Laws.{find_first-none→All}
use loglens_api.Table.Unique.{length-select_where-update_where-le, only_row}
use loglens_api.Models.{BackgroundJob, Instant}
use loglens_api.Models.Enums.{job_type_eq, job_type_eq→eq}
use loglens_api.Effect.{QueuedTask}
use loglens_api.Repositories.Jobs.{same_text, has_job_id, is_active_in_scope, is_rival, running_job}
use loglens_api.Jobs.Create.{ScopesAreExclusive}
use loglens_api.System.Sound.{JobsAreSound}
use loglens_api.System.JobRows.{same_text→eq}

-- What a running job is updated by.
abbrev pub runs : Instant → Option Text → Instant → BackgroundJob → BackgroundJob
runs at task now j = record (running_job at task j) { updated_at = now }

module _ (queue : List QueuedTask) (js : List BackgroundJob) (h : JobsAreSound queue js)
    (job : BackgroundJob) (found : find_first (has_job_id job.id) js ≡ some job)
    (free : find_first (is_rival job) js ≡ none) (at : Instant) (task : Option Text)
    (now : Instant) where
  -- A job without a rival is the only active one of its scope while it runs.
  pub running-ScopesAreExclusive :
      ScopesAreExclusive (update_where (has_job_id job.id) (runs at task now) js)
  running-ScopesAreExclusive t s =
      elim (Bool-cases (job_type_eq job.job_type t && same_text job.scope_key (some s))) [
        | inl own ↦ omega (
          arith,
          h.ids job.id,
          length-select_where-update_where-le (is_active_in_scope t (some s)) (has_job_id job.id)
              (has_job_id job.id) (runs at task now) js
              (only_it own js (find_first-none→All (is_rival job) js free)),
        )
        | inr other ↦ omega (
          arith,
          h.scopes t s,
          length-select_where-update_where-le (is_active_in_scope t (some s))
              (is_active_in_scope t (some s)) (has_job_id job.id) (runs at task now) js
              (not_it other js (only_row (has_job_id job.id) js found (h.ids job.id))),
        )
      ]
    where
      only_it :
          job_type_eq job.job_type t && same_text job.scope_key (some s) ≡ true
          → (xs : List BackgroundJob) → All (λ x. is_rival job x ≡ false) xs
          → All
              (λ x.
                is_active_in_scope t
                    (some s)
                    (if has_job_id job.id x then runs at task now x else x)
                  ≡ true
                → has_job_id job.id x ≡ true)
              xs
      only_it own [] rivals = tt
      only_it own (x ∷ xs) rivals =
          let type_is : job.job_type ≡ t = job_type_eq→eq job.job_type t (ground arith) in
          let scope_is : job.scope_key ≡ some s = same_text→eq job.scope_key s (ground arith) in
          let apart : is_rival job x ≡ false = rivals.0 in
          let apart' : is_active_in_scope t (some s) x && not (text_eq x.id job.id) ≡ false =
            rw (← type_is, ← scope_is) apart in
          (
            λ e. elim (Bool-cases (has_job_id job.id x)) [
              | inl same_id ↦ same_id
              | inr differs ↦ absurd (ground arith)
            ],
            only_it own xs rivals.1,
          )

      not_it :
          job_type_eq job.job_type t && same_text job.scope_key (some s) ≡ false
          → (xs : List BackgroundJob) → All (λ x. has_job_id job.id x ≡ true → x ≡ job) xs
          → All
              (λ x.
                is_active_in_scope t
                    (some s)
                    (if has_job_id job.id x then runs at task now x else x)
                  ≡ true
                → is_active_in_scope t (some s) x ≡ true)
              xs
      not_it other [] same = tt
      not_it other (x ∷ xs) same = (
        λ e. elim (Bool-cases (has_job_id job.id x)) [
          | inl it ↦
              let is_it : x ≡ job = same.0 it in
              let kept : is_active_in_scope t (some s) (runs at task now x) ≡ true = ground arith in
              let kept' : is_active_in_scope t (some s) (runs at task now job) ≡ true =
                ap (λ y. is_active_in_scope t (some s) (runs at task now y)) (sym is_it) ∙ kept in
              absurd (ground arith)
          | inr differs ↦ ground arith
        ],
        not_it other xs same.1,
      )
