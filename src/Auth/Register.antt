-- ===== src/Auth/Register.antt =====
-- `AuthService.register_user`: who gets an account, and that an address never gets two.
use loglens_api.Base.{
  ℕ, ◌+◌, ◌<◌, ◌≡◌, refl, ap, true, false, [], ◌∷◌, none, List, inl, inr, Bool-cases, Option-cases,
  arith, All,
}
use loglens_api.Text.{Text, text_eq, strip}
use loglens_api.Text.Laws.{text_eq_refl, text_eq→eq, strip-lower, strip_idem, lower_idem}
use loglens_api.Table.{find_first, insert_row}
use loglens_api.Table.Laws.{find_first-insert_row, All-insert_row, All-map}
use loglens_api.Models.{User}
use loglens_api.Models.Enums.{UserRole}
use loglens_api.Errors.{app_error, duplicate_email_error}
use loglens_api.Effect.{Env, World, ok, err}
use loglens_api.Security.{hash_password}
use loglens_api.Repositories.Users.{has_email, is_some, get_by_email, create_user}
use loglens_api.Auth.{normalize_email, register_new, register_user}

-- No two rows have the same address.
abbrev pub EmailsAreDistinct : List User → Type 0
EmailsAreDistinct [] = Unit
EmailsAreDistinct (u ∷ us) = (find_first (has_email u.email) us ≡ none) × EmailsAreDistinct us

-- The addresses are distinct and in normal form, and the ids lie below the sequence's next one.
pub record UsersAreValid (next : ℕ) (us : List User) : Type 0 where
  pub distinct : EmailsAreDistinct us
  pub normal : All (λ u. normalize_email u.email ≡ u.email) us
  pub below : All (λ u. u.id < next) us

-- Case and outer white space of an address do not matter, and once normalised they are gone.
pub normalize_email_idem :
    (email : Text) → normalize_email (normalize_email email) ≡ normalize_email email
unfolding normalize_email
normalize_email_idem email =
    rw (strip-lower (strip email), strip_idem email) (lower_idem (strip email))

text_eq_sym : (s t : Text) → text_eq s t ≡ false → text_eq t s ≡ false
text_eq_sym s t h = elim (Bool-cases (text_eq t s)) [
  | inl e ↦ absurd (ground (arith, text_eq→eq t s e, text_eq_refl s))
  | inr e ↦ e
]

missing-insert_row :
    (email : Text) (u : User) (us : List User)
    → find_first (has_email email) us ≡ none
    → text_eq u.email email ≡ false
    → find_first (has_email email) (insert_row u us) ≡ none
unfolding find_first insert_row
missing-insert_row email u [] e h = rw h
missing-insert_row email u (x ∷ us) e h = ground (arith, missing-insert_row email u us)

EmailsAreDistinct-insert_row :
    (u : User) (us : List User)
    → find_first (has_email u.email) us ≡ none
    → EmailsAreDistinct us
    → EmailsAreDistinct (insert_row u us)
unfolding find_first insert_row
EmailsAreDistinct-insert_row u [] e d = (refl, tt)
EmailsAreDistinct-insert_row u (x ∷ us) e d = elim (Bool-cases (text_eq x.email u.email)) [
  | inl same ↦ absurd (ground arith)
  | inr other ↦ (
    missing-insert_row x.email u us d.0 (text_eq_sym x.email u.email other),
    EmailsAreDistinct-insert_row u us (ground arith) d.1,
  )
]

module _ (env : Env) (email password : Text) (w : World env) where
  -- The row of a new account.
  abbrev pub account : User
  account = record {
    id = w.sequences.next_user;
    email = normalize_email email;
    password_hash = env.argon2_hash w.draws password;
    role = UserRole.developer;
    is_active = true;
    created_at = w.transaction_time;
    updated_at = w.transaction_time;
  }

  -- An address that has no account gets one, an enabled developer's, which is committed.
  pub register_user-new :
      find_first (has_email (normalize_email email)) w.working.users ≡ none
      → let (r, w') = register_user env email password w in
        (r ≡ ok account)
        × (w'.committed.users ≡ insert_row account w.working.users)
        × (w'.working.users ≡ w'.committed.users)
        × (w'.sequences.next_user ≡ w.sequences.next_user + 1)
  unfolding register_user hash_password create_user get_by_email
  register_user-new free = ground arith

  -- An address that has one is refused, and nothing at all changes.
  pub register_user-taken :
      is_some (find_first (has_email (normalize_email email)) w.working.users) ≡ true
      → register_user env email password w ≡ (err (app_error duplicate_email_error), w)
  unfolding register_user get_by_email
  register_user-taken taken = ground arith

-- If another session takes the address after the look-up, the insertion meets the unique index,
-- the transaction is rolled back, and the caller sees the error of a taken address.
pub register_new-taken :
    (env : Env) (email password : Text) (w : World env)
    → is_some (find_first (has_email email) w.working.users) ≡ true
    → let (r, w') = register_new env email password w in
      (r ≡ err (app_error duplicate_email_error))
      × (w'.committed ≡ w.committed)
      × (w'.working ≡ w.committed)
unfolding register_new hash_password create_user
register_new-taken env email password w taken = ground arith

-- Registration keeps the table of users valid, whatever its outcome.
pub register_user-UsersAreValid :
    (env : Env) (email password : Text) (w : World env)
    → UsersAreValid w.sequences.next_user w.working.users
    → let w' = (register_user env email password w).1 in
      UsersAreValid w'.sequences.next_user w'.working.users
register_user-UsersAreValid env email password w v =
    elim (Option-cases (find_first (has_email (normalize_email email)) w.working.users)) [
      | inl free ↦
          let (_, table, current, next) = register_user-new env email password w free in
          rw (current, table, next)
            (record {
              distinct =
                  EmailsAreDistinct-insert_row (account env email password w) _ free v.distinct;
              normal = All-insert_row _ _ _ (normalize_email_idem email) v.normal;
              below =
                  All-insert_row _ _ _ (omega arith) (All-map _ _ _ (λ u h. omega arith) v.below);
            })
      | inr (u, taken) ↦ rw (register_user-taken env email password w (rw taken)) v
    ]

-- After a registration a second one for the same address, however it is spelled, is refused.
pub register_user-twice :
    (env : Env) (email again password other : Text) (w : World env) {u : User}
    → normalize_email again ≡ normalize_email email
    → (register_user env email password w).0 ≡ ok u
    → (register_user env again other (register_user env email password w).1).0
      ≡ err (app_error duplicate_email_error)
register_user-twice env email again password other w same h =
    elim (Option-cases (find_first (has_email (normalize_email email)) w.working.users)) [
      | inl free ↦
          let (_, table, current, _) = register_user-new env email password w free in
          rw (
            register_user-taken env again other (register_user env email password w).1 (
              rw (
                same,
                current,
                table,
                find_first-insert_row (has_email (normalize_email email))
                    (account env email password w) w.working.users free (text_eq_refl _),
              )))
      | inr (x, taken) ↦
          absurd (cc (h, ap (λ p. p.0) (register_user-taken env email password w (rw taken))))
    ]
