-- ===== src/Repositories/Users.antt =====
-- app/repositories/user.py. `users.email` has a unique index.
use loglens_api.Base.{ℕ, ◌+◌, Bool, true, false, Option, none, some, List, leb, ◌==◌}
use loglens_api.Text.{Text, text_eq}
use loglens_api.Text.Decimal.{ℤ, pos, negsuc}
use loglens_api.Table.{find_first, update_where, insert_row, order_by}
use loglens_api.Models.{User}
use loglens_api.Models.Enums.{UserRole}
use loglens_api.Errors.{integrity_error}
use loglens_api.Effect.{
  Env, Action, pure, raise_if, ◌>>=◌, ◌>>◌, query, write, next_id, transaction_now,
}

-- A row's id against the integer that a request gave.
abbrev pub same_id : ℕ → ℤ → Bool
same_id n (pos m) = n == m
same_id n (negsuc m) = false

abbrev pub has_email : Text → User → Bool
has_email email u = text_eq u.email email

abbrev pub is_some {ℓ} : {A : Type ℓ} → Option A → Bool
is_some none = false
is_some (some a) = true

module _ {env : Env} where
  unfoldable pub get_by_id : ℤ → Action env (Option User)
  get_by_id user_id = query (λ d. find_first (λ u. same_id u.id user_id) d.users)

  unfoldable pub get_by_email : Text → Action env (Option User)
  get_by_email email = query (λ d. find_first (has_email email) d.users)

  unfoldable pub create_user : Text → Text → UserRole → Bool → Action env User
  create_user email password_hash role is_active = do
    id ← next_id (λ s. s.next_user) (λ s. record s { next_user = s.next_user + 1 })
    now ← transaction_now
    taken ← query (λ d. find_first (has_email email) d.users)
    raise_if (is_some taken) integrity_error
    let user : User = record {
      id = id;
      email = email;
      password_hash = password_hash;
      role = role;
      is_active = is_active;
      created_at = now;
      updated_at = now;
    }
    write (λ d. record d { users = insert_row user d.users })
    pure user

  unfoldable pub list_users : Action env (List User)
  list_users = query (λ d. order_by (λ a b. leb a.id b.id) d.users)

  -- An attribute that is set and flushed; `updated_at` follows by `onupdate`.
  unfoldable pub update_role : User → UserRole → Action env User
  update_role user role = do
    now ← transaction_now
    let change = λ (u : User). record u { role = role; updated_at = now }
    write (λ d. record d { users = update_where (λ u. u.id == user.id) change d.users })
    pure (change user)

  unfoldable pub update_status : User → Bool → Action env User
  update_status user is_active = do
    now ← transaction_now
    let change = λ (u : User). record u { is_active = is_active; updated_at = now }
    write (λ d. record d { users = update_where (λ u. u.id == user.id) change d.users })
    pure (change user)
