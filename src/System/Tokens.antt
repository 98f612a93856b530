-- ===== src/System/Tokens.antt =====
-- The repository of refresh tokens keeps the tables sound.
use loglens_api.Base.{
  ℕ, ◌+◌, ◌≡◌, refl, sym, Bool, Option, none, List, arith, inl, inr, Option-cases, Bool-cases,
}
use loglens_api.Text.{Text}
use loglens_api.Text.Laws.{text_eq→eq}
use loglens_api.Table.{find_first, update_where, insert_row}
use loglens_api.Table.Unique.{
  IsNumbered-later, IsNumbered-insert_row, IsNumbered-update_where, AtMostOne-insert_row,
  AtMostOne-update_where,
}
use loglens_api.Models.{RefreshToken, Instant, Datetime}
use loglens_api.Effect.{Env, World, Db, Sequences, QueuedTask}
use loglens_api.Effect.Keeps.{Keeps}
use loglens_api.Repositories.RefreshTokens.{
  has_jti_hash, create_token, revoke_token, revoke_family, revoke_all_for_user,
}
use loglens_api.System.Sound.{TokensAreSound, DbIsSound, IsSound}

module _ (next : ℕ) (ts : List RefreshToken) where
  insertion-TokensAreSound :
      (t : RefreshToken)
      → t.id ≡ next
      → find_first (has_jti_hash t.jti_hash) ts ≡ none
      → TokensAreSound next ts
      → TokensAreSound (next + 1) (insert_row t ts)
  insertion-TokensAreSound t e free h = record {
    ids = IsNumbered-insert_row (λ t. t.id) 0 next t ts e h.ids;
    hashes = λ a.
        AtMostOne-insert_row (has_jti_hash a) t ts
          (λ fits. rw (sym (text_eq→eq t.jti_hash a fits)) free) (h.hashes a);
  }

  later-TokensAreSound : TokensAreSound next ts → TokensAreSound (next + 1) ts
  later-TokensAreSound h = record {
    ids = IsNumbered-later (λ t. t.id) 0 next (next + 1) ts (omega arith) h.ids;
    hashes = h.hashes;
  }

  update-TokensAreSound :
      (p : RefreshToken → Bool) (f : RefreshToken → RefreshToken)
      → ((t : RefreshToken) → (f t).id ≡ t.id)
      → ((t : RefreshToken) → (f t).jti_hash ≡ t.jti_hash)
      → TokensAreSound next ts
      → TokensAreSound next (update_where p f ts)
  update-TokensAreSound p f id hash h = record {
    ids = IsNumbered-update_where (λ t. t.id) p f 0 next ts id h.ids;
    hashes = λ a.
        AtMostOne-update_where (has_jti_hash a) p f ts
          (λ t. elim (Bool-cases (p t)) [ inl e ↦ rw (e, hash t) refl | inr e ↦ rw e refl ])
          (h.hashes a);
  }

module _ {s : Sequences} {q : List QueuedTask} {d : Db} where
  next_token-DbIsSound :
      DbIsSound s q d → DbIsSound (record s { next_token = s.next_token + 1 }) q d
  next_token-DbIsSound h = record {
    users = h.users;
    tokens = later-TokensAreSound s.next_token d.refresh_tokens h.tokens;
    logs = h.logs;
    jobs = h.jobs;
    analyses = h.analyses;
  }

  tokens-DbIsSound :
      {ts : List RefreshToken}
      → DbIsSound s q d
      → TokensAreSound s.next_token ts
      → DbIsSound s q (record d { refresh_tokens = ts })
  tokens-DbIsSound h tokens = record {
    users = h.users;
    tokens = tokens;
    logs = h.logs;
    jobs = h.jobs;
    analyses = h.analyses;
  }

module _ {env : Env} where
  pub create_token-IsSound :
      (user_id : ℕ) (hash family : Text) (expires_at : Datetime)
      → Keeps IsSound (create_token {env = env} user_id hash family expires_at)
  unfolding create_token
  create_token-IsSound user_id hash family expires_at = record {
    at = λ w h. elim (Option-cases (find_first (has_jti_hash hash) w.working.refresh_tokens)) [
      | inr (t, taken) ↦ rw taken (next_token-DbIsSound h.0, next_token-DbIsSound h.1, h.2)
      | inl free ↦ rw free (
        next_token-DbIsSound h.0,
        tokens-DbIsSound (next_token-DbIsSound h.1) (
            insertion-TokensAreSound w.sequences.next_token w.working.refresh_tokens _ refl free
              h.1.tokens),
        h.2,
      )
    ];
  }

  -- An update of some tokens that keeps their ids and hashes.
  revocation-IsSound :
      (w : World env) (p : RefreshToken → Bool) (f : RefreshToken → RefreshToken)
      → ((t : RefreshToken) → (f t).id ≡ t.id)
      → ((t : RefreshToken) → (f t).jti_hash ≡ t.jti_hash)
      → IsSound w
      → IsSound (record w {
        working = record w.working { refresh_tokens = update_where p f w.working.refresh_tokens };
      })
  revocation-IsSound w p f id hash h = (
    h.0,
    tokens-DbIsSound h.1 (
        update-TokensAreSound w.sequences.next_token w.working.refresh_tokens p f id hash
          h.1.tokens),
    h.2,
  )

  pub revoke_token-IsSound :
      (t : RefreshToken) (at : Instant) (replaced_by : Option Text) (mark_reuse : Bool)
      → Keeps IsSound (revoke_token {env = env} t at replaced_by mark_reuse)
  unfolding revoke_token
  revoke_token-IsSound t at replaced_by mark_reuse = record {
    at = λ w. revocation-IsSound w _ _ (λ t. refl) (λ t. refl);
  }

  pub revoke_family-IsSound :
      (family_id : Text) (at : Instant) (mark_reuse : Bool)
      → Keeps IsSound (revoke_family {env = env} family_id at mark_reuse)
  unfolding revoke_family
  revoke_family-IsSound family_id at mark_reuse = record {
    at = λ w. revocation-IsSound w _ _ (λ t. refl) (λ t. refl);
  }

  pub revoke_all_for_user-IsSound :
      (user_id : ℕ) (at : Instant) → Keeps IsSound (revoke_all_for_user {env = env} user_id at)
  unfolding revoke_all_for_user
  revoke_all_for_user-IsSound user_id at = record {
    at = λ w. revocation-IsSound w _ _ (λ t. refl) (λ t. refl);
  }
