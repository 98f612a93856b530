-- ===== src/ErrorGroups.antt =====
-- app/services/error_groups.py: the list of the groups, and what a user changes in one.
pub mod Changes
use loglens_api.Base.{
  ℕ, Bool, true, false, not, ◌&&◌, ◌||◌, Option, none, some, List, length, leb, ◌==◌,
}
use loglens_api.Text.{Text, codes, text_eq}
use loglens_api.Text.Decimal.{ℤ}
use loglens_api.Table.{select_where, order_by}
use loglens_api.Models.{ErrorGroup, User, Instant}
use loglens_api.Models.Enums.{
  UserRole, LogEnvironment, ErrorGroupStatus, ErrorGroupSeverity, environment_eq, status_eq,
  severity_eq,
}
use loglens_api.Errors.{app_error, authorization_error, not_found}
use loglens_api.Effect.{Env, Action, ok, err, pure, or_raise, raise_if, ◌>>=◌, ◌>>◌, commit, query}
use loglens_api.Pagination.{SortOrder, in_order, PaginationMeta, total_pages_of, page_of}
use loglens_api.Repositories.ErrorGroups as group_repo
use loglens_api.Repositories.Users as user_repo
use loglens_api.Repositories.Users.{same_id}
use loglens_api.Repositories.Logs.{given, column, like_pattern}

-- app/schemas/error_group.py: the filters of `ErrorGroupListQuery`
pub record GroupFilter : Type 0 where
  pub service : Option Text
  pub environment : Option LogEnvironment
  pub status : Option ErrorGroupStatus
  pub severity : Option ErrorGroupSeverity
  pub assigned_to : Option ℕ
  pub text : Option Text
  pub from_timestamp : Option Instant
  pub to_timestamp : Option Instant

pub data ErrorGroupSortBy : Type 0 where
  last_seen occurrence_count created_at : ErrorGroupSortBy

pub record ErrorGroupListQuery : Type 0 where
  pub filter : GroupFilter
  pub sort_by : ErrorGroupSortBy
  pub sort_order : SortOrder
  pub page : ℕ
  pub page_size : ℕ

pub record ErrorGroupListResponse : Type 0 where
  pub items : List ErrorGroup
  pub pagination : PaginationMeta

abbrev pub group_column : ErrorGroupSortBy → ErrorGroup → ℕ
group_column ErrorGroupSortBy.last_seen g = g.last_seen
group_column ErrorGroupSortBy.occurrence_count g = g.occurrence_count
group_column ErrorGroupSortBy.created_at g = g.created_at

-- A developer who gives a group to somebody else.
abbrev pub is_forbidden : User → Option ℤ → Bool
is_forbidden current_user assigned_to = elim current_user.role [
  | UserRole.admin ↦ false
  | UserRole.developer ↦ elim assigned_to [
    | none ↦ false
    | some z ↦ not (same_id current_user.id z)
  ]
]

module _ (env : Env) where
  open env use {ilike}

  abbrev group_text_matches : ErrorGroup → Text → Bool
  group_text_matches g text =
      let pattern = like_pattern text in
      ilike g.title pattern
      || ilike g.fingerprint pattern
      || column g.exception_type (λ c. ilike c pattern)
      || ilike g.service_name pattern

  -- `ErrorGroupRepository.build_query`
  unfoldable pub group_query : GroupFilter → ErrorGroup → Bool
  group_query f g =
      given f.service (λ v. text_eq g.service_name v)
      && given f.environment (λ v. environment_eq g.environment v)
      && given f.status (λ v. status_eq g.status v)
      && given f.severity (λ v. severity_eq g.severity v)
      && given f.assigned_to (λ v. column g.assigned_to (λ c. c == v))
      && given f.from_timestamp (λ v. leb v g.last_seen)
      && given f.to_timestamp (λ v. leb g.first_seen v)
      && given f.text (λ v. group_text_matches g v)

  unfoldable pub get_error_group : ℤ → Action env ErrorGroup
  get_error_group group_id = do
    group ← group_repo.get_by_id group_id
    or_raise group (not_found (codes "ErrorGroup"))

  unfoldable pub list_error_groups : ErrorGroupListQuery → Action env ErrorGroupListResponse
  list_error_groups q = do
    rows ← query (λ d. select_where (group_query q.filter) d.error_groups)
    let sorted =
        order_by
          (λ a b.
            in_order q.sort_order (group_column q.sort_by a) a.id (group_column q.sort_by b) b.id)
          rows
    pure (record {
      items = page_of q.page q.page_size sorted;
      pagination = record {
        page = q.page;
        page_size = q.page_size;
        total_items = length rows;
        total_pages = total_pages_of (length rows) q.page_size;
      };
    })

  unfoldable pub update_status : ℤ → ErrorGroupStatus → Action env ErrorGroup
  update_status group_id status = do
    group ← get_error_group group_id
    updated_group ← group_repo.update_status group status
    commit
    pure updated_group

  -- The id of the assignee, which is that of a user who is there.
  abbrev pub find_assignee : Option ℤ → Action env (Option ℕ)
  find_assignee none = pure none
  find_assignee (some z) = do
    found ← user_repo.get_by_id z
    assignee ← or_raise found (not_found (codes "User"))
    pure (some assignee.id)

  unfoldable pub update_assignment : ℤ → Option ℤ → User → Action env ErrorGroup
  update_assignment group_id assigned_to current_user = do
    group ← get_error_group group_id
    raise_if (is_forbidden current_user assigned_to) (
        app_error
          (authorization_error (codes "Developers may only assign error groups to themselves.")))
    assignee ← find_assignee assigned_to
    updated_group ← group_repo.update_assignment group assignee
    commit
    pure updated_group
