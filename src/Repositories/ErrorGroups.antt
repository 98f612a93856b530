-- ===== src/Repositories/ErrorGroups.antt =====
-- app/repositories/error_group.py. The unique index is on service, environment and fingerprint.
use loglens_api.Base.{ℕ, ◌+◌, Bool, ◌&&◌, Option, none, some, ◌==◌}
use loglens_api.Text.{Text, text_eq}
use loglens_api.Text.Decimal.{ℤ}
use loglens_api.Table.{find_first, update_where, insert_row}
use loglens_api.Models.{Instant, ErrorGroup}
use loglens_api.Models.Enums.{LogEnvironment, ErrorGroupStatus, ErrorGroupSeverity, environment_eq}
use loglens_api.Effect.{Env, Action, pure, ◌>>=◌, ◌>>◌, query, write, next_id, transaction_now}
use loglens_api.Repositories.Users.{same_id}

-- The keyword arguments of `upsert_group`.
pub record GroupValues : Type 0 where
  pub fingerprint : Text
  pub title : Text
  pub service_name : Text
  pub environment : LogEnvironment
  pub exception_type : Option Text
  pub first_seen : Instant
  pub last_seen : Instant
  pub severity : ErrorGroupSeverity

-- The row that an insertion would meet in the index.
abbrev pub is_same_group : GroupValues → ErrorGroup → Bool
is_same_group v g =
    text_eq g.service_name v.service_name
    && environment_eq g.environment v.environment
    && text_eq g.fingerprint v.fingerprint

abbrev pub new_group : ℕ → Instant → GroupValues → ErrorGroup
new_group id now v = record {
  id = id;
  fingerprint = v.fingerprint;
  title = v.title;
  service_name = v.service_name;
  environment = v.environment;
  exception_type = v.exception_type;
  first_seen = v.first_seen;
  last_seen = v.last_seen;
  occurrence_count = 1;
  status = ErrorGroupStatus.unresolved;
  severity = v.severity;
  assigned_to = none;
  created_at = now;
  updated_at = now;
}

-- `ON CONFLICT DO UPDATE SET`
abbrev pub seen_again : Instant → GroupValues → ErrorGroup → ErrorGroup
seen_again now v g = record g {
  title = v.title;
  exception_type = v.exception_type;
  last_seen = v.last_seen;
  severity = v.severity;
  updated_at = now;
  occurrence_count = g.occurrence_count + 1;
}

module _ {env : Env} where
  unfoldable pub get_by_id : ℤ → Action env (Option ErrorGroup)
  get_by_id group_id = query (λ d. find_first (λ g. same_id g.id group_id) d.error_groups)

  abbrev insert_group : GroupValues → ℕ → Instant → Option ErrorGroup → Action env ErrorGroup
  insert_group v id now none = do
    write (λ d. record d { error_groups = insert_row (new_group id now v) d.error_groups })
    pure (new_group id now v)
  insert_group v id now (some g) = do
    write (λ d. record d {
      error_groups = update_where (is_same_group v) (seen_again now v) d.error_groups;
    })
    pure (seen_again now v g)

  -- The sequence is drawn from before the index is looked at, so a conflict uses up an id too.
  unfoldable pub upsert_group : GroupValues → Action env ErrorGroup
  upsert_group v = do
    id ← next_id (λ s. s.next_group) (λ s. record s { next_group = s.next_group + 1 })
    now ← transaction_now
    existing ← query (λ d. find_first (is_same_group v) d.error_groups)
    insert_group v id now existing

  unfoldable pub update_status : ErrorGroup → ErrorGroupStatus → Action env ErrorGroup
  update_status group status = do
    now ← transaction_now
    let change = λ (g : ErrorGroup). record g { status = status; updated_at = now }
    write (λ d. record d {
      error_groups = update_where (λ g. g.id == group.id) change d.error_groups;
    })
    pure (change group)

  unfoldable pub update_assignment : ErrorGroup → Option ℕ → Action env ErrorGroup
  update_assignment group assigned_to = do
    now ← transaction_now
    let change = λ (g : ErrorGroup). record g { assigned_to = assigned_to; updated_at = now }
    write (λ d. record d {
      error_groups = update_where (λ g. g.id == group.id) change d.error_groups;
    })
    pure (change group)
