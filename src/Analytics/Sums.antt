-- ===== src/Analytics/Sums.antt =====
-- The counts of a summary against the table that it was made from.
use loglens_api.Base.{
  ℕ, ◌+◌, ◌≤◌, ◌≡◌, refl, ap, Bool, true, false, List, [], ◌∷◌, arith, length, if◌then◌else◌,
  Bool-cases, inl, inr,
}
use loglens_api.Text.{Text, text_eq}
use loglens_api.Text.Laws.{text_eq→eq}
use loglens_api.Table.{select_where}
use loglens_api.Table.Laws.{length-select_where-le}
use loglens_api.Table.Counts.{how_many}
use loglens_api.Models.{AnalyticsSummary}
use loglens_api.Models.Enums.{environment_eq, level_eq}
use loglens_api.Effect.{Env, World, ok}
use loglens_api.Analytics.{
  count_up, count_by, is_since, summarize, day_before, recalculate_summary_analytics,
}

-- The number under a key; a missing key has none.
unfoldable pub count_of : {K : Type 0} → (K → K → Bool) → K → List (K × ℕ) → ℕ
count_of same k [] = 0
count_of same k ((j, n) ∷ rest) =
    let others = count_of same k rest in if same j k then n else others

-- All numbers together.
unfoldable pub sum_counts : {K : Type 0} → List (K × ℕ) → ℕ
sum_counts [] = 0
sum_counts ((k, n) ∷ rest) = n + sum_counts rest

sum_counts-count_up :
    {K : Type 0} (same : K → K → Bool) (k : K) (counts : List (K × ℕ))
    → sum_counts (count_up same k counts) ≡ sum_counts counts + 1
unfolding sum_counts count_up
sum_counts-count_up same k [] = omega arith
sum_counts-count_up same k ((j, n) ∷ rest) = ground (arith, sum_counts-count_up same k rest)

sum_counts-count_by :
    {A K : Type 0} (same : K → K → Bool) (column : A → K) (xs : List A)
    → sum_counts (count_by same column xs) ≡ length xs
unfolding sum_counts count_by
sum_counts-count_by same column [] = refl
sum_counts-count_by same column (x ∷ xs) = omega (
  arith,
  sum_counts-count_up same (column x) (count_by same column xs),
  sum_counts-count_by same column xs,
)

-- Texts that are the same are the same to any other.
text_eq_congruent : (a b k : Text) → text_eq a b ≡ true → text_eq a k ≡ text_eq b k
text_eq_congruent a b k e = ap (λ t. text_eq t k) (text_eq→eq a b e)

text_eq-apart : (a b k : Text) → text_eq a b ≡ false → text_eq a k ≡ true → text_eq b k ≡ false
text_eq-apart a b k apart e = elim (Bool-cases (text_eq b k)) [
  | inl e' ↦ absurd (cc (apart, text_eq→eq b k e'))
  | inr e' ↦ e'
]

count_of-count_up :
    (k c : Text) (counts : List (Text × ℕ))
    → count_of text_eq k (count_up text_eq c counts)
      ≡ count_of text_eq k counts + (if text_eq c k then 1 else 0)
unfolding count_of count_up
count_of-count_up k c [] = ground arith
count_of-count_up k c ((j, n) ∷ rest) =
    ground (arith, text_eq_congruent j c k, text_eq-apart j c k, count_of-count_up k c rest)

count_of-count_by :
    {A : Type 0} (k : Text) (column : A → Text) (xs : List A)
    → count_of text_eq k (count_by text_eq column xs) ≡ how_many (λ x. text_eq (column x) k) xs
unfolding count_of count_by select_where
count_of-count_by k column [] = refl
count_of-count_by k column (x ∷ xs) = ground (
  arith,
  count_of-count_up k (column x) (count_by text_eq column xs),
  count_of-count_by k column xs,
)

-- A payload of the task: it is the summary of the tables that the session saw.
recalculated-summary :
    (env : Env) (w : World env) {summary : AnalyticsSummary}
    → (recalculate_summary_analytics env w).0 ≡ ok summary
    → summary ≡ summarize (day_before (env.clock w.readings)) summary.generated_at w.working
unfolding recalculate_summary_analytics summarize
recalculated-summary env w h = ground arith

-- The summary that the task computes agrees with the table of logs: the counts by service, by
-- environment and by level each add up to the logs of the last 24 hours, of which there are no more
-- than logs, and the count under a service is the number of its logs in that time.
pub recalculate_summary_analytics-counts :
    (env : Env) (w : World env) (service : Text) {summary : AnalyticsSummary}
    → (recalculate_summary_analytics env w).0 ≡ ok summary
    → let recent = select_where (is_since (day_before (env.clock w.readings))) w.working.logs in
      (sum_counts summary.logs_by_service ≡ summary.logs_last_24h)
      × (sum_counts summary.logs_by_environment ≡ summary.logs_last_24h)
      × (sum_counts summary.logs_by_severity ≡ summary.logs_last_24h)
      × (summary.logs_last_24h ≤ summary.total_logs)
      × (count_of text_eq service summary.logs_by_service
          ≡ how_many (λ l. text_eq l.service_name service) recent)
unfolding summarize
recalculate_summary_analytics-counts env w service {summary} h =
    let recent = select_where (is_since (day_before (env.clock w.readings))) w.working.logs in
    rw (recalculated-summary env w h) (
      sum_counts-count_by text_eq (λ l. l.service_name) recent,
      sum_counts-count_by environment_eq (λ l. l.environment) recent,
      sum_counts-count_by level_eq (λ l. l.log_level) recent,
      length-select_where-le (is_since (day_before (env.clock w.readings))) w.working.logs,
      count_of-count_by service (λ l. l.service_name) recent,
    )
