-- ===== src/Logs/Deleting.antt =====
-- `delete_log`.
use loglens_api.Base.{
  ℕ, ◌≤◌, ◌≡◌, refl, Bool, true, none, some, List, [], ◌∷◌, inl, inr, Option-cases, arith, length,
  ◌==◌,
}
use loglens_api.Text.{codes}
use loglens_api.Text.Decimal.{ℤ, pos, negsuc}
use loglens_api.Table.{find_first, select_where, delete_where}
use loglens_api.Table.Laws.{find_first_fits}
use loglens_api.Models.{Log}
use loglens_api.Errors.{not_found}
use loglens_api.Effect.{Env, World, ok, err, commit}
use loglens_api.Repositories.Logs as log_repo
use loglens_api.Repositories.Users.{same_id}
use loglens_api.Logs.{get_log, delete_log}
use loglens_api.Logs.Counting.{OccurrencesCoverLogs, in_group}

same_row : (m n : ℕ) (z : ℤ) → same_id m z ≡ true → same_id n z ≡ (n == m)
same_row m n (pos k) h = ground arith
same_row m n (negsuc k) h = cc

find_first-delete_where :
    (n : ℕ) (z : ℤ) (ls : List Log)
    → same_id n z ≡ true
    → find_first (λ l. same_id l.id z) (delete_where (λ l. l.id == n) ls) ≡ none
unfolding find_first delete_where
find_first-delete_where n z [] h = refl
find_first-delete_where n z (l ∷ ls) h =
    ground (arith, same_row n l.id z h, find_first-delete_where n z ls h)

pub length-select_where-delete_where-le :
    (p q : Log → Bool) (ls : List Log)
    → length (select_where p (delete_where q ls)) ≤ length (select_where p ls)
unfolding select_where delete_where
length-select_where-delete_where-le p q [] = omega arith
length-select_where-delete_where-le p q (l ∷ ls) =
    ground (arith, length-select_where-delete_where-le p q ls)

get_log-missing :
    (env : Env) (z : ℤ) (w : World env)
    → find_first (λ l. same_id l.id z) w.working.logs ≡ none
    → get_log env z w ≡ (err (not_found (codes "Log")), w)
unfolding get_log log_repo.get_by_id
get_log-missing env z w h = ground arith

module _ (env : Env) (z : ℤ) (w : World env) where
  abbrev without : Log → World env
  without l = record w {
    working = record w.working { logs = delete_where (λ k. k.id == l.id) w.working.logs };
  }

  delete_log-found :
      {l : Log}
      → find_first (λ l. same_id l.id z) w.working.logs ≡ some l
      → delete_log env z w ≡ commit {env = env} (without l)
  unfolding delete_log get_log log_repo.get_by_id log_repo.delete_log
  delete_log-found found = ground arith

  delete_log-missing :
      find_first (λ l. same_id l.id z) w.working.logs ≡ none
      → delete_log env z w ≡ (err (not_found (codes "Log")), w)
  unfolding delete_log get_log log_repo.get_by_id
  delete_log-missing found = ground arith

  -- A log that is there is deleted, and that is committed; afterwards nothing is found for its id.
  pub delete_log-gone :
      {l : Log}
      → find_first (λ l. same_id l.id z) w.working.logs ≡ some l
      → let (answer, w') = delete_log env z w in
        (answer ≡ ok tt)
        × (w'.committed ≡ w'.working)
        × (get_log env z w' ≡ (err (not_found (codes "Log")), w'))
  delete_log-gone {l} found =
      let fits : same_id l.id z ≡ true =
        find_first_fits (λ l. same_id l.id z) w.working.logs found in
      let free = find_first-delete_where l.id z w.working.logs fits in
      rw (delete_log-found found) (refl, refl, get_log-missing env z _ free)

  -- Deleting a log, there or not, keeps that every group counts at least the logs it has.
  pub delete_log-OccurrencesCoverLogs :
      OccurrencesCoverLogs w.working.logs w.working.error_groups
      → let w' = (delete_log env z w).1 in
        OccurrencesCoverLogs w'.working.logs w'.working.error_groups
  delete_log-OccurrencesCoverLogs covered n =
      elim (Option-cases (find_first (λ l. same_id l.id z) w.working.logs)) [
        | inl e ↦ rw (delete_log-missing e) (covered n)
        | inr (l, e) ↦ rw (delete_log-found e) (
            omega (
              arith,
              length-select_where-delete_where-le (in_group n) (λ k. k.id == l.id) w.working.logs,
              covered n,
            ))
      ]
