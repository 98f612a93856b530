-- ===== src/Logs/Tallies.antt =====
-- The table of groups as what it promises to be: how often each error was seen.
use loglens_api.Base.{
  ℕ, ◌+◌, ◌≡◌, refl, sym, ap, ◌∙◌, Bool, true, false, ◌&&◌, Option, none, some, List, [], ◌∷◌, inl,
  inr, Bool-cases, Option-cases, arith, if◌then◌else◌,
}
use loglens_api.Text.{Text, text_eq}
use loglens_api.Text.Laws.{text_eq_refl, text_eq→eq}
use loglens_api.Table.{find_first, select_where, update_where, insert_row}
use loglens_api.Table.Laws.{find_first-insert_row, find_first-update_where, find_first_fits}
use loglens_api.Table.Counts.{how_many}
use loglens_api.Clock.{as_utc_aware}
use loglens_api.Models.{Instant, ErrorGroup, LogIngestRequest}
use loglens_api.Models.Enums.{
  LogEnvironment, environment_eq, environment_eq→eq, environment_eq_refl,
}
use loglens_api.Errors.{Error}
use loglens_api.Effect.{Env, World, err}
use loglens_api.Repositories.Users.{is_some}
use loglens_api.Repositories.ErrorGroups.{GroupValues, is_same_group, new_group, seen_again}
use loglens_api.Logs.{should_group, fingerprint_of, group_values, persist_log, ingest_log}
use loglens_api.Logs.Upserts.{upsert_group-groups}
use loglens_api.Logs.Grouping.{persist_log-groups, persist_log-plain}

-- What makes two errors the same.
pub record Key : Type 0 where
  pub service_name : Text
  pub environment : LogEnvironment
  pub fingerprint : Text

abbrev has_key : Key → ErrorGroup → Bool
has_key k g =
    text_eq g.service_name k.service_name
    && environment_eq g.environment k.environment
    && text_eq g.fingerprint k.fingerprint

abbrev same_key : Key → Key → Bool
same_key j k =
    text_eq j.service_name k.service_name
    && environment_eq j.environment k.environment
    && text_eq j.fingerprint k.fingerprint

abbrev key_of : GroupValues → Key
key_of v = record {
  service_name = v.service_name;
  environment = v.environment;
  fingerprint = v.fingerprint;
}

-- The occurrences that the group of a key counts; without a group there are none.
abbrev counted : Option ErrorGroup → ℕ
counted none = 0
counted (some g) = g.occurrence_count

abbrev pub tally : List ErrorGroup → Key → ℕ
tally groups k = counted (find_first (has_key k) groups)

same_key→eq : (j k : Key) → same_key j k ≡ true → j ≡ k
same_key→eq j k h =
    let service = text_eq→eq j.service_name k.service_name (ground arith) in
    let environment = environment_eq→eq j.environment k.environment (ground arith) in
    let fingerprint = text_eq→eq j.fingerprint k.fingerprint (ground arith) in
    λ i. record {
      service_name = service i;
      environment = environment i;
      fingerprint = fingerprint i;
    }

-- A group of one key has another key exactly if the keys are the same.
has_key-same_key : (j k : Key) (g : ErrorGroup) → has_key j g ≡ true → has_key k g ≡ same_key j k
has_key-same_key j k g h =
    let service = text_eq→eq g.service_name j.service_name (ground arith) in
    let environment = environment_eq→eq g.environment j.environment (ground arith) in
    let fingerprint = text_eq→eq g.fingerprint j.fingerprint (ground arith) in
    rw (service, environment, fingerprint) refl

find_first-unfit_row :
    {A : Type 0} (q : A → Bool) (y : A) (xs : List A)
    → q y ≡ false
    → find_first q (insert_row y xs) ≡ find_first q xs
unfolding find_first insert_row
find_first-unfit_row q y [] h = rw h refl
find_first-unfit_row q y (x ∷ xs) h = ground (arith, find_first-unfit_row q y xs h)

own_key : (k : Key) → same_key k k ≡ true
own_key k =
    rw (text_eq_refl k.service_name, environment_eq_refl k.environment, text_eq_refl k.fingerprint)
      refl

-- A new group counts one for its key.
insertion-tally :
    (k : Key) (v : GroupValues) (id : ℕ) (now : Instant) (groups : List ErrorGroup)
    → find_first (is_same_group v) groups ≡ none
    → tally (insert_row (new_group id now v) groups) k
      ≡ tally groups k + (if same_key (key_of v) k then 1 else 0)
insertion-tally k v id now groups free = elim (Bool-cases (same_key (key_of v) k)) [
  | inl same ↦
      let is_it : key_of v ≡ k = same_key→eq (key_of v) k same in
      let gone : find_first (has_key k) groups ≡ none =
        ap (λ j. find_first (has_key j) groups) (sym is_it) ∙ free in
      rw (find_first-insert_row (has_key k) (new_group id now v) groups gone same, gone, same)
        (omega arith)
  | inr other ↦
      rw (find_first-unfit_row (has_key k) (new_group id now v) groups other, other) (omega arith)
]

-- A known group counts one more.
update-tally :
    (k : Key) (v : GroupValues) (now : Instant) (groups : List ErrorGroup) (g : ErrorGroup)
    → find_first (is_same_group v) groups ≡ some g
    → tally (update_where (is_same_group v) (seen_again now v) groups) k
      ≡ tally groups k + (if same_key (key_of v) k then 1 else 0)
update-tally k v now groups g known =
    let updated =
      find_first-update_where (is_same_group v) (has_key k) (seen_again now v) groups
        (λ x. ground arith) in
    elim (Option-cases (find_first (has_key k) groups)) [
      | inl gone ↦ elim (Bool-cases (same_key (key_of v) k)) [
        | inl same ↦
            let is_it : key_of v ≡ k = same_key→eq (key_of v) k same in
            let there : find_first (has_key k) groups ≡ some g =
              ap (λ j. find_first (has_key j) groups) (sym is_it) ∙ known in
            absurd (cc (gone, there))
        | inr other ↦ rw (updated, gone, other) (omega arith)
      ]
      | inr (x, found) ↦
          let fits : has_key k x ≡ true = find_first_fits (has_key k) groups found in
          elim (Bool-cases (is_same_group v x)) [
            | inl both ↦
                let same : same_key (key_of v) k ≡ true =
                  sym (has_key-same_key (key_of v) k x both) ∙ fits in
                rw (updated, found, both, same) refl
            | inr only ↦ elim (Bool-cases (same_key (key_of v) k)) [
              | inl same ↦
                  let is_it : key_of v ≡ k = same_key→eq (key_of v) k same in
                  absurd (cc (only, ap (λ j. has_key j x) is_it, fits))
              | inr other ↦ rw (updated, found, only, other) (omega arith)
            ]
          ]
    ]

persist_log-overflow :
    (env : Env) (p : LogIngestRequest) (w : World env)
    → as_utc_aware p.timestamp ≡ none
    → persist_log env p w ≡ (err Error.overflow_error, w)
unfolding persist_log
persist_log-overflow env p w never = ground arith

module _ (env : Env) where
  -- The log is an occurrence of the error: its level is grouped, its time can be stored, and it has the
  -- key.
  abbrev pub is_occurrence : Key → LogIngestRequest → Bool
  is_occurrence k p =
      is_some (as_utc_aware p.timestamp)
      && should_group p.log_level
      && (text_eq p.service_name k.service_name
          && environment_eq p.environment k.environment
          && text_eq (fingerprint_of env p) k.fingerprint)

  persist_log-tally :
      (k : Key) (p : LogIngestRequest) (w : World env)
      → tally (persist_log env p w).1.working.error_groups k
        ≡ tally w.working.error_groups k + (if is_occurrence k p then 1 else 0)
  persist_log-tally k p w = elim (Option-cases (as_utc_aware p.timestamp)) [
    | inl never ↦
        rw (ap (λ o. o.1.working.error_groups) (persist_log-overflow env p w never), never)
          (omega arith)
    | inr (at, time) ↦ elim (Bool-cases (should_group p.log_level)) [
      | inr plain ↦
          rw (ap (λ d. d.error_groups) (persist_log-plain env p w at time plain).1, time, plain)
            (omega arith)
      | inl grouped ↦
          rw (persist_log-groups env p w at time grouped, time, grouped)
            (elim (upsert_group-groups (group_values env p at) w) [
              | inl (free, table) ↦
                  rw table
                    (insertion-tally k (group_values env p at) _ _ w.working.error_groups free)
              | inr (g, known, table) ↦
                  rw table (update-tally k (group_values env p at) _ w.working.error_groups g known)
            ])
    ]
  ]

  ingest_log-groups :
      (p : LogIngestRequest) (w : World env)
      → (ingest_log env p w).1.working.error_groups ≡ (persist_log env p w).1.working.error_groups
  unfolding ingest_log
  ingest_log-groups p w = ground arith

  -- One request after the other, whether or not it is refused.
  unfoldable pub ingest_each : List LogIngestRequest → World env → World env
  ingest_each [] w = w
  ingest_each (p ∷ ps) w = ingest_each ps (ingest_log env p w).1

  -- The table of groups is a tally of errors: after any logs were ingested, the group of a service,
  -- environment and fingerprint counts as many occurrences more as there are logs among them of a grouped
  -- level and with these, and whose time can be stored. No other log counts, and none is lost.
  pub ingest_each-tally :
      (k : Key) (ps : List LogIngestRequest) (w : World env)
      → tally (ingest_each ps w).working.error_groups k
        ≡ tally w.working.error_groups k + how_many (is_occurrence k) ps
  unfolding ingest_each select_where
  ingest_each-tally k [] w = omega arith
  ingest_each-tally k (p ∷ ps) w = ground (
    arith,
    ingest_each-tally k ps (ingest_log env p w).1,
    ingest_log-groups p w,
    persist_log-tally k p w,
  )
