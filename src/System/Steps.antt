-- ===== src/System/Steps.antt =====
-- What every action is made of keeps the tables sound.
use loglens_api.Base.{refl, Bool, List, [], ◌∷◌, All, inl, inr, Bool-cases}
use loglens_api.Text.{Text}
use loglens_api.Text.Laws.{text_eq_refl}
use loglens_api.Table.{find_first}
use loglens_api.Table.Laws.{All-map}
use loglens_api.Models.{BackgroundJob}
use loglens_api.Models.Enums.{BackgroundJobType}
use loglens_api.Errors.{Error}
use loglens_api.Effect.{
  Env, Db, Action, Reply, commit, rollback, raise_if, query, utc_now, draw, redis_call,
}
use loglens_api.Effect.Keeps.{Keeps, keeps_rules}
use loglens_api.Repositories.Jobs.{has_job_id}
use loglens_api.Jobs.{increment_background_jobs_created, decrement_active_background_jobs}
use loglens_api.Workers.{session_scope}
use loglens_api.System.Sound.{HasJob, IsSound}

HasJob-later :
    (i : Text) (x : BackgroundJob) (js : List BackgroundJob) → HasJob i js → HasJob i (x ∷ js)
unfolding find_first
HasJob-later i x js h = elim (Bool-cases (has_job_id i x)) [ inl e ↦ rw e refl | inr e ↦ rw e h ]

pub own_jobs : (js : List BackgroundJob) → All (λ j. HasJob j.id js) js
unfolding find_first
own_jobs [] = tt
own_jobs (x ∷ js) =
    (rw (text_eq_refl x.id) refl, All-map _ _ js (λ j. HasJob-later j.id x js) (own_jobs js))

module _ {env : Env} where
  pub commit-IsSound : Keeps IsSound (commit {env = env})
  commit-IsSound = record { at = λ w h. (h.1, h.1, own_jobs w.working.background_jobs) }

  pub rollback-IsSound : Keeps IsSound (rollback {env = env})
  rollback-IsSound = record { at = λ w h. (h.0, h.0, own_jobs w.committed.background_jobs) }

  pub raise_if-IsSound : (c : Bool) (e : Error) → Keeps IsSound (raise_if {env = env} c e)
  raise_if-IsSound c e = record { at = λ w h. h }

  pub utc_now-IsSound : Keeps IsSound (utc_now {env = env})
  utc_now-IsSound = record { at = λ w h. h }

  pub draw-IsSound : Keeps IsSound (draw {env = env})
  draw-IsSound = record { at = λ w h. h }

  pub query-IsSound : {A : Type 0} (f : Db → A) → Keeps IsSound (query {env = env} f)
  query-IsSound f = record { at = λ w h. h }

  pub redis_call-IsSound :
      {A : Type 0} (command : env.Redis → Reply A × env.Redis)
      → Keeps IsSound (redis_call {env = env} command)
  redis_call-IsSound command = record { at = λ w h. h }

  pub increment-IsSound :
      (t : BackgroundJobType) → Keeps IsSound (increment_background_jobs_created {env = env} t)
  unfolding increment_background_jobs_created
  increment-IsSound t = record { at = λ w h. h }

  pub decrement-IsSound :
      (t : BackgroundJobType) → Keeps IsSound (decrement_active_background_jobs {env = env} t)
  unfolding decrement_active_background_jobs
  decrement-IsSound t = record { at = λ w h. h }

  -- Closing a session drops what was not committed.
  pub session_scope-IsSound :
      {A : Type 0} (m : Action env A) → Keeps IsSound m → Keeps IsSound (session_scope m)
  session_scope-IsSound m km = record {
    at = λ w h. let h' = km.at w h in (h'.0, h'.0, own_jobs (m w).1.committed.background_jobs);
  }

pub ruleset step_rules = (
  keeps_rules, commit-IsSound, rollback-IsSound, raise_if-IsSound, utc_now-IsSound, draw-IsSound,
  query-IsSound, redis_call-IsSound, increment-IsSound, decrement-IsSound,
)
