-- ===== src/System/Accounts.antt =====
-- The repositories of users and of refresh tokens keep the tables sound.
use loglens_api.Base.{
  ℕ, ◌+◌, ◌≡◌, refl, sym, Bool, none, List, arith, inl, inr, Option-cases, Bool-cases,
}
use loglens_api.Text.{Text}
use loglens_api.Text.Laws.{text_eq→eq}
use loglens_api.Table.{find_first, update_where, insert_row}
use loglens_api.Table.Unique.{
  IsNumbered-later, IsNumbered-insert_row, IsNumbered-update_where, AtMostOne-insert_row,
  AtMostOne-update_where,
}
use loglens_api.Models.{User, RefreshToken}
use loglens_api.Models.Enums.{UserRole}
use loglens_api.Effect.{Env, Db, Sequences, QueuedTask}
use loglens_api.Effect.Keeps.{Keeps}
use loglens_api.Repositories.Users.{has_email, create_user, update_role, update_status}
use loglens_api.System.Sound.{UsersAreSound, TokensAreSound, DbIsSound, IsSound}

insertion-UsersAreSound :
    (next : ℕ) (u : User) (us : List User)
    → u.id ≡ next
    → find_first (has_email u.email) us ≡ none
    → UsersAreSound next us
    → UsersAreSound (next + 1) (insert_row u us)
insertion-UsersAreSound next u us e free h = record {
  ids = IsNumbered-insert_row (λ u. u.id) 0 next u us e h.ids;
  emails = λ a.
      AtMostOne-insert_row (has_email a) u us (λ fits. rw (sym (text_eq→eq u.email a fits)) free)
        (h.emails a);
}

later-UsersAreSound :
    (next : ℕ) (us : List User) → UsersAreSound next us → UsersAreSound (next + 1) us
later-UsersAreSound next us h = record {
  ids = IsNumbered-later (λ u. u.id) 0 next (next + 1) us (omega arith) h.ids;
  emails = h.emails;
}

update-UsersAreSound :
    (p : User → Bool) (f : User → User) (next : ℕ) (us : List User)
    → ((u : User) → (f u).id ≡ u.id)
    → ((u : User) → (f u).email ≡ u.email)
    → UsersAreSound next us
    → UsersAreSound next (update_where p f us)
update-UsersAreSound p f next us id email h = record {
  ids = IsNumbered-update_where (λ u. u.id) p f 0 next us id h.ids;
  emails = λ a.
      AtMostOne-update_where (has_email a) p f us
        (λ u. elim (Bool-cases (p u)) [ inl e ↦ rw (e, email u) refl | inr e ↦ rw e refl ])
        (h.emails a);
}

module _ {s : Sequences} {q : List QueuedTask} {d : Db} where
  next_user-DbIsSound : DbIsSound s q d → DbIsSound (record s { next_user = s.next_user + 1 }) q d
  next_user-DbIsSound h = record {
    users = later-UsersAreSound s.next_user d.users h.users;
    tokens = h.tokens;
    logs = h.logs;
    jobs = h.jobs;
    analyses = h.analyses;
  }

  users-DbIsSound :
      {us : List User}
      → DbIsSound s q d
      → UsersAreSound s.next_user us
      → DbIsSound s q (record d { users = us })
  users-DbIsSound h users = record {
    users = users;
    tokens = h.tokens;
    logs = h.logs;
    jobs = h.jobs;
    analyses = h.analyses;
  }

  tokens-DbIsSound :
      {ts : List RefreshToken}
      → DbIsSound s q d
      → TokensAreSound s.next_token ts
      → DbIsSound s q (record d { refresh_tokens = ts })
  tokens-DbIsSound h tokens = record {
    users = h.users;
    tokens = tokens;
    logs = h.logs;
    jobs = h.jobs;
    analyses = h.analyses;
  }

module _ {env : Env} where
  pub create_user-IsSound :
      (email hash : Text) (role : UserRole) (active : Bool)
      → Keeps IsSound (create_user {env = env} email hash role active)
  unfolding create_user
  create_user-IsSound email hash role active = record {
    at = λ w h. elim (Option-cases (find_first (has_email email) w.working.users)) [
      | inr (u, taken) ↦ rw taken (next_user-DbIsSound h.0, next_user-DbIsSound h.1, h.2)
      | inl free ↦ rw free (
        next_user-DbIsSound h.0,
        users-DbIsSound (next_user-DbIsSound h.1)
            (insertion-UsersAreSound w.sequences.next_user _ w.working.users refl free h.1.users),
        h.2,
      )
    ];
  }

  pub update_role-IsSound :
      (u : User) (role : UserRole) → Keeps IsSound (update_role {env = env} u role)
  unfolding update_role
  update_role-IsSound u role = record {
    at = λ w h. (
      h.0,
      users-DbIsSound h.1 (
          update-UsersAreSound _ _ w.sequences.next_user w.working.users (λ u. refl) (λ u. refl)
            h.1.users),
      h.2,
    );
  }

  pub update_status-IsSound :
      (u : User) (active : Bool) → Keeps IsSound (update_status {env = env} u active)
  unfolding update_status
  update_status-IsSound u active = record {
    at = λ w h. (
      h.0,
      users-DbIsSound h.1 (
          update-UsersAreSound _ _ w.sequences.next_user w.working.users (λ u. refl) (λ u. refl)
            h.1.users),
      h.2,
    );
  }
