-- ===== src/Repositories/Analyses.antt =====
-- app/repositories/error_analysis.py
use loglens_api.Base.{
  ℕ, ◌+◌, Bool, ◌&&◌, ◌||◌, Option, none, some, List, [], ◌∷◌, take, leb, ltb, ◌==◌,
}
use loglens_api.Text.Decimal.{ℤ}
use loglens_api.Table.{select_where, order_by, insert_row, update_where}
use loglens_api.Models.{Instant, ErrorAnalysis}
use loglens_api.Models.Enums.{ErrorAnalysisStatus}
use loglens_api.Effect.{Env, Action, pure, ◌>>=◌, ◌>>◌, query, write, next_id, transaction_now}
use loglens_api.Repositories.Users.{same_id}

abbrev pub pending_analysis : ℕ → Instant → ℕ → ℕ → ErrorAnalysis
pending_analysis id now error_group_id created_by = record {
  id = id;
  error_group_id = error_group_id;
  status = ErrorAnalysisStatus.pending;
  summary = none;
  likely_root_cause = none;
  suggested_fix = none;
  confidence = none;
  affected_component = none;
  recommended_priority = none;
  reasoning_summary = none;
  provider = none;
  model = none;
  latency_ms = none;
  raw_response_metadata = none;
  created_by = some created_by;
  completed_at = none;
  created_at = now;
  updated_at = now;
}

-- `order_by(desc(created_at), desc(id))`: the newest goes first.
abbrev pub is_newer : ErrorAnalysis → ErrorAnalysis → Bool
is_newer a b = ltb b.created_at a.created_at || (b.created_at == a.created_at && leb b.id a.id)

abbrev pub first_of {ℓ} : {A : Type ℓ} → List A → Option A
first_of [] = none
first_of (a ∷ rest) = some a

-- The rows of a group, the newest first.
unfoldable pub for_group : ℤ → List ErrorAnalysis → List ErrorAnalysis
for_group error_group_id analyses =
    order_by is_newer (select_where (λ a. same_id a.error_group_id error_group_id) analyses)

module _ {env : Env} where
  unfoldable pub create_pending_analysis : ℕ → ℕ → Action env ErrorAnalysis
  create_pending_analysis error_group_id created_by = do
    id ← next_id (λ s. s.next_analysis) (λ s. record s { next_analysis = s.next_analysis + 1 })
    now ← transaction_now
    let analysis = pending_analysis id now error_group_id created_by
    write (λ d. record d { error_analyses = insert_row analysis d.error_analyses })
    pure analysis

  unfoldable pub get_latest_for_group : ℤ → Action env (Option ErrorAnalysis)
  get_latest_for_group error_group_id =
      query (λ d. first_of (for_group error_group_id d.error_analyses))

  unfoldable pub list_for_group : ℤ → ℕ → Action env (List ErrorAnalysis)
  list_for_group error_group_id limit =
      query (λ d. take limit (for_group error_group_id d.error_analyses))

  -- Attributes set on a loaded analysis, when they are flushed.
  unfoldable pub save_analysis :
      (ErrorAnalysis → ErrorAnalysis) → ErrorAnalysis → Action env (Unit {0})
  save_analysis change analysis = do
    now ← transaction_now
    write (λ d. record d {
      error_analyses =
          update_where (λ a. a.id == analysis.id) (λ a. record (change a) { updated_at = now })
            d.error_analyses;
    })
