-- ===== src/Tests/Analytics.antt =====
-- A summary of two logs, in an environment that keeps one text in Redis.
use loglens_api.Base.{◌+◌, ◌≤◌, ◌≡◌, refl, true, some, none, [], ◌∷◌, Option}
use loglens_api.Text.{Text, codes, text_eq}
use loglens_api.Table.{select_where, insert_sorted, order_by}
use loglens_api.Table.Counts.{how_many}
use loglens_api.Models.{AnalyticsSummary}
use loglens_api.Effect.{Env, World, reply, str_value}
use loglens_api.Analytics.{
  count_up, count_by, total_of, summarize, recalculate_summary_analytics, get_summary,
}
use loglens_api.Analytics.Sums.{count_of, sum_counts, recalculate_summary_analytics-counts}
use loglens_api.Analytics.Caching.{Answers, get_summary-Answers}
use loglens_api.Tests.Sample.{env, world_in, db}
use loglens_api.Tests.Cleanup.{line, recent_line}

abbrev summary : AnalyticsSummary
summary = record {
  generated_at = 3000000000002;
  total_logs = 2;
  logs_last_24h = 1;
  logs_by_service = (codes "billing", 1) ∷ [];
  logs_by_environment = (recent_line.environment, 1) ∷ [];
  logs_by_severity = (recent_line.log_level, 1) ∷ [];
  unresolved_error_count = 0;
  most_frequent_error_groups = [];
  avg_occurrences_per_group = (0, 1);
}

abbrev cached : Env
cached = record env {
  clock = λ n. 3000000000000 + n;
  json_dumps_summary = λ s. codes "{}";
  load_summary = λ t. some summary;
  Redis = Option Text;
  redis_get = λ k r. (reply (elim r [ none ↦ none | some t ↦ some (str_value t) ]), r);
  redis_incr = λ k r. (reply 1, r);
  redis_expire = λ k seconds r. (reply true, r);
  redis_delete = λ ks r. (reply 1, none);
  redis_scan = λ pattern r. (reply [], r);
  redis_set = λ k v seconds r. (reply tt, some v);
}

abbrev archive : World cached
archive = world_in cached none (record (db []) { logs = line ∷ recent_line ∷ [] })

program : Unit {0}
unfolding text_eq select_where insert_sorted order_by count_up count_by total_of count_of sum_counts
    summarize recalculate_summary_analytics get_summary
program = tt

recalculate_summary_analytics-counts_example :
    (sum_counts summary.logs_by_service ≡ 1)
    × (sum_counts summary.logs_by_environment ≡ 1)
    × (sum_counts summary.logs_by_severity ≡ 1)
    × (1 ≤ 2)
    × (count_of text_eq (codes "billing") summary.logs_by_service
        ≡ how_many (λ l. text_eq l.service_name (codes "billing")) (recent_line ∷ []))
unfolding program
recalculate_summary_analytics-counts_example =
    recalculate_summary_analytics-counts cached archive (codes "billing") {summary = summary} refl

-- What the task has left behind: Redis holds a text.
abbrev filled : World cached
filled = (recalculate_summary_analytics cached archive).1

get_summary-Answers_example :
    Answers cached (reply (some (str_value (codes "{}")))) filled (get_summary cached)
unfolding program
get_summary-Answers_example = get_summary-Answers cached filled
