-- ===== src/System/JobRows.antt =====
-- The unique indexes of the table of jobs, under an insertion and under an update.
use loglens_api.Base.{
  ◌≡◌, refl, sym, ap, Bool, true, Option, none, some, List, [], ◌∷◌, arith, inl, inr, Option-cases,
  Bool-cases, if◌then◌else◌,
}
use loglens_api.Text.{Text}
use loglens_api.Text.Laws.{text_eq→eq, text_eq_refl}
use loglens_api.Table.{find_first, update_where, insert_row}
use loglens_api.Table.Laws.{find_first-insert_row_old, find_first-update_where, All-map, All-always}
use loglens_api.Table.Unique.{
  AtMostOne-insert_row, AtMostOne-update_where, length-select_where-update_where-le,
}
use loglens_api.Models.{BackgroundJob}
use loglens_api.Models.Enums.{BackgroundJobType, job_type_eq→eq}
use loglens_api.Effect.{QueuedTask}
use loglens_api.Repositories.Jobs.{
  same_text, has_job_id, has_idempotency_key, is_active_in_scope, is_active_status,
}
use loglens_api.Jobs.Create.{ScopesAreExclusive}
use loglens_api.System.Sound.{HasJob, JobsAreSound, job_of}

pub same_text→eq : (k : Option Text) (s : Text) → same_text k (some s) ≡ true → k ≡ some s
same_text→eq none s h = cc
same_text→eq (some a) s h = ap some (text_eq→eq a s h)

-- A row found by any test is found by its id.
pub HasJob-found :
    (p : BackgroundJob → Bool) (js : List BackgroundJob) {j : BackgroundJob}
    → find_first p js ≡ some j
    → HasJob j.id js
unfolding find_first
HasJob-found p [] found = cc
HasJob-found p (x ∷ js) {j} found = elim (Bool-cases (p x)) [
  | inl e ↦ let same : x ≡ j = ground arith in rw (same, text_eq_refl j.id) refl
  | inr e ↦
      let rest = HasJob-found p js {j = j} (ground arith) in
      elim (Bool-cases (has_job_id j.id x)) [ inl o ↦ rw o refl | inr o ↦ rw o rest ]
]

pub HasJob-insert_row :
    (i : Text) (j : BackgroundJob) (js : List BackgroundJob)
    → HasJob i js
    → HasJob i (insert_row j js)
HasJob-insert_row i j js h = elim (Option-cases (find_first (has_job_id i) js)) [
  | inl gone ↦ absurd (ground arith)
  | inr (x, found) ↦ rw (find_first-insert_row_old (has_job_id i) j js found) refl
]

module _ (p : BackgroundJob → Bool) (f : BackgroundJob → BackgroundJob)
    (same_id : (j : BackgroundJob) → (f j).id ≡ j.id) where
  pub HasJob-update_where :
      (i : Text) (js : List BackgroundJob) → HasJob i js → HasJob i (update_where p f js)
  HasJob-update_where i js h =
      let updated =
        find_first-update_where p (has_job_id i) f js
          (λ j. elim (Bool-cases (p j)) [ inl e ↦ rw (e, same_id j) refl | inr e ↦ rw e refl ]) in
      elim (Option-cases (find_first (has_job_id i) js)) [
        | inl gone ↦ absurd (ground arith)
        | inr (x, found) ↦ rw (updated, found) refl
      ]

module _ (queue : List QueuedTask) (js : List BackgroundJob) (h : JobsAreSound queue js) where
  -- A row that meets none of the three unique indexes.
  pub insertion-JobsAreSound :
      (j : BackgroundJob)
      → find_first (has_job_id j.id) js ≡ none
      → find_first (has_idempotency_key j.job_type j.idempotency_key) js ≡ none
      → find_first (is_active_in_scope j.job_type j.scope_key) js ≡ none
      → JobsAreSound queue (insert_row j js)
  insertion-JobsAreSound j id key scope = record {
    ids = λ i.
        AtMostOne-insert_row (has_job_id i) j js (λ e. rw (sym (text_eq→eq j.id i e)) id) (h.ids i);
    keys = λ t k.
        AtMostOne-insert_row (has_idempotency_key t (some k)) j js
          (λ e.
            let type_is : j.job_type ≡ t = job_type_eq→eq j.job_type t (ground arith) in
            let key_is : j.idempotency_key ≡ some k =
              same_text→eq j.idempotency_key k (ground arith) in
            rw (← type_is, ← key_is) key)
          (h.keys t k);
    scopes = λ t s.
        AtMostOne-insert_row (is_active_in_scope t (some s)) j js
          (λ e.
            let type_is : j.job_type ≡ t = job_type_eq→eq j.job_type t (ground arith) in
            let scope_is : j.scope_key ≡ some s = same_text→eq j.scope_key s (ground arith) in
            rw (← type_is, ← scope_is) scope)
          (h.scopes t s);
    queued = All-map _ _ queue (λ t. HasJob-insert_row (job_of t) j js) h.queued;
  }

  module _ (p : BackgroundJob → Bool) (f : BackgroundJob → BackgroundJob)
      (id : (j : BackgroundJob) → (f j).id ≡ j.id)
      (type_kept : (j : BackgroundJob) → (f j).job_type ≡ j.job_type)
      (key : (j : BackgroundJob) → (f j).idempotency_key ≡ j.idempotency_key) where
    -- An update that keeps the keys; what it does to scopes is asked for.
    pub update_by_keys-JobsAreSound :
        ScopesAreExclusive (update_where p f js) → JobsAreSound queue (update_where p f js)
    update_by_keys-JobsAreSound scopes = record {
      ids = λ i.
          AtMostOne-update_where (has_job_id i) p f js
            (λ j. elim (Bool-cases (p j)) [ inl e ↦ rw (e, id j) refl | inr e ↦ rw e refl ])
            (h.ids i);
      keys = λ t k.
          AtMostOne-update_where (has_idempotency_key t (some k)) p f js
            (λ j. elim (Bool-cases (p j)) [
              | inl e ↦ rw (e, type_kept j, key j) refl
              | inr e ↦ rw e refl
            ])
            (h.keys t k);
      scopes = scopes;
      queued = All-map _ _ queue (λ t. HasJob-update_where p f id (job_of t) js) h.queued;
    }

    -- An update that makes no job active.
    pub update-JobsAreSound :
        ((j : BackgroundJob) → (f j).scope_key ≡ j.scope_key)
        → ((j : BackgroundJob)
            → is_active_status (f j).status ≡ true
            → is_active_status j.status ≡ true)
        → JobsAreSound queue (update_where p f js)
    update-JobsAreSound scope status = update_by_keys-JobsAreSound (λ t s. omega (
      arith,
      h.scopes t s,
      length-select_where-update_where-le (is_active_in_scope t (some s))
          (is_active_in_scope t (some s)) p f js (All-always _ js (λ j. stays t s j)),
    ))
      where
        stays :
            (t : BackgroundJobType) (s : Text) (j : BackgroundJob)
            → is_active_in_scope t (some s) (if p j then f j else j) ≡ true
            → is_active_in_scope t (some s) j ≡ true
        stays t s j e = elim (Bool-cases (p j)) [
          | inl hit ↦ ground (arith, status j, type_kept j, scope j)
          | inr miss ↦ ground arith
        ]
