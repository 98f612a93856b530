-- ===== src/Logs/Counting.antt =====
-- `occurrence_count` against the logs that are in the table.
use loglens_api.Base.{
  ℕ, ◌+◌, ◌≤◌, ◌≡◌, Bool, false, none, some, List, [], ◌∷◌, inl, inr, Bool-cases, Option-cases,
  arith, length, if◌then◌else◌, ◌==◌,
}
use loglens_api.Table.{find_first, select_where, update_where, insert_row}
use loglens_api.Table.Laws.{length-select_where-insert_row}
use loglens_api.Clock.{as_utc_aware}
use loglens_api.Models.{Instant, Log, ErrorGroup, LogIngestRequest}
use loglens_api.Effect.{Env, World}
use loglens_api.Repositories.ErrorGroups.{GroupValues, is_same_group, seen_again, upsert_group}
use loglens_api.Logs.{should_group, group_values, persist_log}
use loglens_api.Logs.Upserts.{next_group, upsert_group-groups, known, groups}
use loglens_api.Logs.Grouping.{
  persist_log-grouped, persist_log-groups, persist_log-plain, persist_log-untimed,
}

abbrev pub in_group : ℕ → Log → Bool
in_group n l = elim l.error_group_id [ none ↦ false | some id ↦ id == n ]

-- The occurrences that the rows with id `n` count; the id is the primary key.
unfoldable pub occurrences : ℕ → List ErrorGroup → ℕ
occurrences n [] = 0
occurrences n (g ∷ gs) = occurrences n gs + (if g.id == n then g.occurrence_count else 0)

-- No group counts fewer occurrences than it has logs; one that has logs is there.
abbrev pub OccurrencesCoverLogs : List Log → List ErrorGroup → Type 0
OccurrencesCoverLogs logs groups =
    (n : ℕ) → length (select_where (in_group n) logs) ≤ occurrences n groups

occurrences-insert_row :
    (n : ℕ) (g : ErrorGroup) (gs : List ErrorGroup)
    → occurrences n (insert_row g gs)
      ≡ occurrences n gs + (if g.id == n then g.occurrence_count else 0)
unfolding occurrences insert_row
occurrences-insert_row n g [] = ground arith
occurrences-insert_row n g (h ∷ gs) = ground (arith, occurrences-insert_row n g gs)

module _ (now : Instant) (v : GroupValues) where
  abbrev updated : List ErrorGroup → List ErrorGroup
  updated gs = update_where (is_same_group v) (seen_again now v) gs

  occurrences-updated-le :
      (n : ℕ) (gs : List ErrorGroup) → occurrences n gs ≤ occurrences n (updated gs)
  unfolding occurrences update_where
  occurrences-updated-le n [] = omega arith
  occurrences-updated-le n (g ∷ gs) = elim (Bool-cases (is_same_group v g)) [
    | inl e ↦ rw e (ground (arith, occurrences-updated-le n gs))
    | inr e ↦ rw e (ground (arith, occurrences-updated-le n gs))
  ]

  -- The row that is found counts one more.
  occurrences-updated-found :
      (gs : List ErrorGroup) {g : ErrorGroup}
      → find_first (is_same_group v) gs ≡ some g
      → occurrences g.id gs + 1 ≤ occurrences g.id (updated gs)
  unfolding occurrences update_where find_first
  occurrences-updated-found [] e = cc
  occurrences-updated-found (h ∷ gs) {g} e = elim (Bool-cases (is_same_group v h)) [
    | inl fits ↦
        let same : h ≡ g = ground arith in
        rw (fits, same) (ground (arith, occurrences-updated-le g.id gs))
    | inr other ↦ rw other (ground (arith, occurrences-updated-found gs {g = g}))
  ]

-- The group of the answer counts one occurrence more, and no other counts fewer.
upsert_group-occurrences :
    {env : Env} (v : GroupValues) (w : World env) (n : ℕ)
    → occurrences n w.working.error_groups
        + (if (next_group w.sequences.next_group w.transaction_time v (known v w)).id == n
            then 1
            else 0)
      ≤ occurrences n (upsert_group v w).1.working.error_groups
upsert_group-occurrences v w n = elim (upsert_group-groups v w) [
  | inl (free, table) ↦
      rw (free, table, occurrences-insert_row n _ w.working.error_groups) (ground arith)
  | inr (g, found, table) ↦
      let more = occurrences-updated-found w.transaction_time v w.working.error_groups found in
      let kept = occurrences-updated-le w.transaction_time v n w.working.error_groups in
      rw (found, table) (one_more _ _ g.id n more kept)
]
  where
    one_more :
        (gs gs' : List ErrorGroup) (m n : ℕ)
        → occurrences m gs + 1 ≤ occurrences m gs'
        → occurrences n gs ≤ occurrences n gs'
        → occurrences n gs + (if m == n then 1 else 0) ≤ occurrences n gs'
    one_more gs gs' m n more kept = elim (Bool-cases (m == n)) [
      | inl e ↦ let same : m ≡ n = ground arith in rw e (rw same at more)
      | inr e ↦ rw e (omega arith)
    ]

module _ (env : Env) where
  -- Storing a log keeps that every group counts at least the logs it has.
  pub persist_log-OccurrencesCoverLogs :
      (p : LogIngestRequest) (w : World env)
      → OccurrencesCoverLogs w.working.logs w.working.error_groups
      → let w' = (persist_log env p w).1 in
        OccurrencesCoverLogs w'.working.logs w'.working.error_groups
  persist_log-OccurrencesCoverLogs p w covered n = elim (Option-cases (as_utc_aware p.timestamp)) [
    | inl time ↦ rw (persist_log-untimed env p w time) (covered n)
    | inr (at, time) ↦ elim (Bool-cases (should_group p.log_level)) [
      | inr plain ↦
          rw
            (
              (persist_log-plain env p w at time plain).1,
              length-select_where-insert_row (in_group n) _ w.working.logs,
            )
            (omega (arith, covered n))
      | inl grouped ↦
          let one_more = upsert_group-occurrences {env = env} (group_values env p at) w n in
          rw
            (
              persist_log-groups env p w at time grouped,
              (persist_log-grouped env p w at time grouped).2,
              length-select_where-insert_row (in_group n) _ w.working.logs,
            )
            (omega (arith, one_more, covered n))
    ]
  ]
