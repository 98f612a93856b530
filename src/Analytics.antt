-- ===== src/Analytics.antt =====
-- app/workers/tasks/analytics_tasks.py and app/services/analytics.py: the summary that a task caches and
-- a request reads.
pub mod Sums
pub mod Caching
use loglens_api.Base.{
  ℕ, ◌+◌, ◌-◌, ◌*◌, Bool, true, false, ◌&&◌, ◌||◌, Option, none, some, List, [], ◌∷◌, map, length,
  take, leb, ltb, ◌==◌, if◌then◌else◌,
}
use loglens_api.Text.{Text, codes, text_eq}
use loglens_api.Table.{select_where, order_by}
use loglens_api.Models.{Instant, Log, ErrorGroup, ErrorGroupSummary, AnalyticsSummary}
use loglens_api.Models.Enums.{ErrorGroupStatus, environment_eq, level_eq, status_eq}
use loglens_api.Errors.{Error, overflow_error}
use loglens_api.Effect.{
  Env, Action, Reply, reply, redis_error, ok, err, pure, raise, raise_if, ◌>>=◌, ◌>>◌, query,
  utc_now, redis_call, Raw, str_value, bytes_value, Db,
}
use loglens_api.Workers.{session_scope}

-- One more under a key.
unfoldable pub count_up : {K : Type 0} → (K → K → Bool) → K → List (K × ℕ) → List (K × ℕ)
count_up same k [] = (k, 1) ∷ []
count_up same k ((j, n) ∷ rest) =
    let others = count_up same k rest in if same j k then (j, n + 1) ∷ rest else (j, n) ∷ others

-- `select(column, func.count(id)).group_by(column)`: the order of the keys means nothing.
unfoldable pub count_by : {A K : Type 0} → (K → K → Bool) → (A → K) → List A → List (K × ℕ)
unfolding count_up
count_by same column [] = []
count_by same column (x ∷ xs) = count_up same (column x) (count_by same column xs)

unfoldable pub total_of : List ℕ → ℕ
total_of [] = 0
total_of (n ∷ ns) = n + total_of ns

-- `coalesce(avg(occurrence_count), 0)`, as a quotient
abbrev pub average : List ℕ → ℕ × ℕ
unfolding total_of
average [] = (0, 1)
average (n ∷ ns) = (n + total_of ns, length (n ∷ ns))

-- `order_by(occurrence_count.desc(), id.asc())`
abbrev pub is_more_frequent : ErrorGroup → ErrorGroup → Bool
is_more_frequent a b =
    ltb b.occurrence_count a.occurrence_count
    || (b.occurrence_count == a.occurrence_count && leb a.id b.id)

abbrev pub group_summary : ErrorGroup → ErrorGroupSummary
group_summary g = record { group_id = g.id; title = g.title; occurrence_count = g.occurrence_count }

abbrev pub is_since : Instant → Log → Bool
is_since since l = leb since l.timestamp

-- The queries of the task, without the time.
unfoldable pub summarize : Instant → Instant → Db → AnalyticsSummary
unfolding average
summarize since generated_at d =
    let recent = select_where (is_since since) d.logs in
    record {
      generated_at = generated_at;
      total_logs = length d.logs;
      logs_last_24h = length recent;
      logs_by_service = count_by text_eq (λ l. l.service_name) recent;
      logs_by_environment = count_by environment_eq (λ l. l.environment) recent;
      logs_by_severity = count_by level_eq (λ l. l.log_level) recent;
      unresolved_error_count =
          length
            (select_where (λ g. status_eq g.status ErrorGroupStatus.unresolved) d.error_groups);
      most_frequent_error_groups =
          map group_summary (take 10 (order_by is_more_frequent d.error_groups));
      avg_occurrences_per_group = average (map (λ g. g.occurrence_count) d.error_groups);
    }

abbrev pub cache_key : Text
cache_key = codes "analytics:summary:v1"

abbrev pub day_before : Instant → Instant
day_before now = now - 86400000000

abbrev pub redis_done : {env : Env} {A : Type 0} → Reply A → Action env A
redis_done (reply a) = pure a
redis_done redis_error = raise Error.redis_failure

abbrev pub raw_text : Raw → Text
raw_text (str_value t) = t
raw_text (bytes_value t) = t

module _ (env : Env) where
  open env use {settings, json_dumps_summary, load_summary, redis_set, redis_get}

  -- Behind the session: the summary is built and cached.
  abbrev pub cache_summary : Instant → Db → Action env AnalyticsSummary
  cache_summary now tables = do
    generated_at ← utc_now
    let payload = summarize (day_before now) generated_at tables
    answer ←
        redis_call
          (redis_set cache_key (json_dumps_summary payload) settings.analytics_cache_ttl_seconds)
    _ ← redis_done answer
    pure payload

  unfoldable pub recalculate_summary_analytics : Action env AnalyticsSummary
  recalculate_summary_analytics = do
    now ← utc_now
    raise_if (ltb now 86400000000) overflow_error
    tables ← session_scope (query (λ d. d))
    cache_summary now tables

  unfoldable pub empty_summary : Action env AnalyticsSummary
  empty_summary = do
    now ← utc_now
    pure (record {
      generated_at = now;
      total_logs = 0;
      logs_last_24h = 0;
      logs_by_service = [];
      logs_by_environment = [];
      logs_by_severity = [];
      unresolved_error_count = 0;
      most_frequent_error_groups = [];
      avg_occurrences_per_group = (0, 1);
    })

  -- The cached text, unless it is empty; a `ValueError` of reading it gives the empty summary too.
  abbrev pub read_summary : Text → Action env AnalyticsSummary
  read_summary [] = empty_summary
  read_summary (c ∷ s) = elim (load_summary (c ∷ s)) [
    | none ↦ empty_summary
    | some summary ↦ pure summary
  ]

  abbrev pub read_cached : Reply (Option Raw) → Action env AnalyticsSummary
  read_cached redis_error = empty_summary
  read_cached (reply none) = empty_summary
  read_cached (reply (some raw)) = read_summary (raw_text raw)

  unfoldable pub get_summary : Action env AnalyticsSummary
  get_summary = do cached ← redis_call (redis_get cache_key); read_cached cached
