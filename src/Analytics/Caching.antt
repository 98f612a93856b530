-- ===== src/Analytics/Caching.antt =====
-- `AnalyticsService.get_summary`: what a request reads of the cache.
use loglens_api.Base.{◌≡◌, ◌≢◌, refl, Option, none, some, [], ◌∷◌, Option-cases, inl, inr, ◌⊎◌}
use loglens_api.Text.{Text}
use loglens_api.Models.{AnalyticsSummary, Instant}
use loglens_api.Effect.{Env, World, Reply, reply, redis_error, Raw, Action, ok}
use loglens_api.Analytics.{
  cache_key, raw_text, empty_summary, read_summary, read_cached, get_summary,
}

-- A summary of that time which counts nothing.
pub record IsEmpty (now : Instant) (s : AnalyticsSummary) : Type 0 where
  pub time : s.generated_at ≡ now
  pub logs : (s.total_logs ≡ 0) × (s.logs_last_24h ≡ 0)
  pub counts : (s.logs_by_service ≡ []) × (s.logs_by_environment ≡ []) × (s.logs_by_severity ≡ [])
  pub groups :
      (s.unresolved_error_count ≡ 0)
      × (s.most_frequent_error_groups ≡ [])
      × (s.avg_occurrences_per_group ≡ (0, 1))

-- Redis gave a text that is not empty and that reads as the summary.
abbrev pub IsReadAs : (env : Env) → Reply (Option Raw) → AnalyticsSummary → Type 0
IsReadAs env answer s =
    (raw : Raw) × (answer ≡ reply (some raw))
    × (raw_text raw ≢ [])
    × (env.load_summary (raw_text raw) ≡ some s)

-- Redis failed, or has no value, or an empty one, or one that reads as no summary.
abbrev pub IsUnreadable : (env : Env) → Reply (Option Raw) → Type 0
IsUnreadable env answer =
    (answer ≡ redis_error)
    ⊎ ((answer ≡ reply none)
        ⊎ ((raw : Raw) × (answer ≡ reply (some raw))
            × ((raw_text raw ≡ []) ⊎ (env.load_summary (raw_text raw) ≡ none))))

module _ (env : Env) where
  -- What an action answers to such a reply of Redis, and what it leaves as it was.
  abbrev pub Answers : Reply (Option Raw) → World env → Action env AnalyticsSummary → Type 0
  Answers answer w m =
      (s : AnalyticsSummary) × ((m w).0 ≡ ok s)
      × (IsReadAs env answer s ⊎ (IsUnreadable env answer × IsEmpty (env.clock w.readings) s))
      × ((m w).1.committed ≡ w.committed)
      × ((m w).1.working ≡ w.working)
      × ((m w).1.queue ≡ w.queue)

  empty_summary-Answers :
      (answer : Reply (Option Raw)) (w : World env)
      → IsUnreadable env answer
      → Answers answer w (empty_summary env)
  unfolding empty_summary
  empty_summary-Answers answer w unreadable = (
    _,
    refl,
    inr (
      unreadable,
      record {
        time = refl;
        logs = (refl, refl);
        counts = (refl, refl, refl);
        groups = (refl, refl, refl);
      },
    ),
    refl,
    refl,
    refl,
  )

  read_summary-Answers :
      (raw : Raw) (t : Text) (w : World env)
      → raw_text raw ≡ t
      → Answers (reply (some raw)) w (read_summary env t)
  read_summary-Answers raw [] w same = empty_summary-Answers _ w (inr (inr (raw, refl, inl same)))
  read_summary-Answers raw (c ∷ t) w same = elim (Option-cases (env.load_summary (c ∷ t))) [
    | inl e ↦
        let gone : IsUnreadable env (reply (some raw)) = inr (inr (raw, refl, inr (rw same e))) in
        rw (e, read_summary) (empty_summary-Answers _ w gone)
    | inr (s, e) ↦
        let held : IsReadAs env (reply (some raw)) s = (raw, refl, (λ nil. cc), rw same e) in
        rw (e, read_summary) (s, refl, inl held, refl, refl, refl)
  ]

  read_cached-Answers :
      (answer : Reply (Option Raw)) (w : World env) → Answers answer w (read_cached env answer)
  read_cached-Answers redis_error w = empty_summary-Answers _ w (inl refl)
  read_cached-Answers (reply none) w = empty_summary-Answers _ w (inr (inl refl))
  read_cached-Answers (reply (some raw)) w = read_summary-Answers raw (raw_text raw) w refl

  -- A request for the summary never fails and changes no table and no queue. It answers the summary that
  -- the cached text reads as; only if Redis fails, or the key has no text, or an empty one, or one that
  -- reads as no summary, it answers a summary of the time now in which every count is 0 and every list
  -- is empty.
  pub get_summary-Answers :
      (w : World env) → Answers (env.redis_get cache_key w.redis).0 w (get_summary env)
  unfolding get_summary
  get_summary-Answers w =
      let (answer, r) = env.redis_get cache_key w.redis in
      read_cached-Answers answer (record w { redis = r })
