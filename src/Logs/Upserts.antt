-- ===== src/Logs/Upserts.antt =====
-- `upsert_group` of app/repositories/error_group.py: what it does to the table of groups.
use loglens_api.Base.{
  ℕ, ◌≤◌, ◌≡◌, refl, true, Option, none, some, List, inl, inr, Bool-cases, Option-cases, arith, ◌⊎◌,
  length, if◌then◌else◌,
}
use loglens_api.Text.Laws.{text_eq_refl, text_eq→eq}
use loglens_api.Table.{find_first, select_where, update_where, insert_row}
use loglens_api.Table.Laws.{
  find_first-insert_row, find_first-update_where, find_first_fits, select_where-none,
  length-select_where-insert_row, length-select_where-update_where,
}
use loglens_api.Models.{Instant, ErrorGroup}
use loglens_api.Models.Enums.{environment_eq→eq}
use loglens_api.Effect.{Env, World, ok}
use loglens_api.Repositories.ErrorGroups.{
  GroupValues, is_same_group, new_group, seen_again, upsert_group,
}

-- The group that an occurrence leaves, given the one that was there.
abbrev pub next_group : ℕ → Instant → GroupValues → Option ErrorGroup → ErrorGroup
next_group id now v none = new_group id now v
next_group id now v (some g) = seen_again now v g

-- The key of a row survives every further occurrence of it.
same_group_kept :
    (now : Instant) (v u : GroupValues) (g : ErrorGroup)
    → is_same_group u (if is_same_group v g then seen_again now v g else g) ≡ is_same_group u g
same_group_kept now v u g = ground arith

-- A new row has the key that it was made for.
own_key : (id : ℕ) (now : Instant) (v : GroupValues) → is_same_group v (new_group id now v) ≡ true
own_key id now v = rw (text_eq_refl v.service_name, text_eq_refl v.fingerprint) (ground arith)

module _ {env : Env} (v : GroupValues) (w : World env) where
  abbrev pub groups : List ErrorGroup
  groups = w.working.error_groups

  abbrev pub known : Option ErrorGroup
  known = find_first (is_same_group v) groups

  new_group_found :
      known ≡ none
      → find_first
          (is_same_group v)
          (insert_row (new_group w.sequences.next_group w.transaction_time v) groups)
        ≡ some (new_group w.sequences.next_group w.transaction_time v)
  new_group_found e =
      find_first-insert_row (is_same_group v) _ groups e
        (own_key w.sequences.next_group w.transaction_time v)

  known_found :
      (g : ErrorGroup)
      → known ≡ some g
      → find_first
          (is_same_group v)
          (update_where (is_same_group v) (seen_again w.transaction_time v) groups)
        ≡ some (seen_again w.transaction_time v g)
  known_found g e =
      rw
        (
          find_first-update_where (is_same_group v) (is_same_group v)
              (seen_again w.transaction_time v) groups (same_group_kept w.transaction_time v v),
          e,
          find_first_fits (is_same_group v) groups e,
        )
        refl

  -- The call answers with the group of its key: a new one with one occurrence, or the known one with
  -- its identity, first time and status kept and one occurrence more.
  pub upsert_group-answer :
      let (answer, w') = upsert_group v w in
      (answer ≡ ok (next_group w.sequences.next_group w.transaction_time v known))
      × (find_first (is_same_group v) w'.working.error_groups
          ≡ some (next_group w.sequences.next_group w.transaction_time v known))
  unfolding upsert_group
  upsert_group-answer = elim (Option-cases known) [
    | inl e ↦ rw e (refl, new_group_found e)
    | inr (g, e) ↦ rw e (refl, known_found g e)
  ]

  -- The rest of the state stays as it was.
  pub upsert_group-keeps :
      let w' = (upsert_group v w).1 in
      (w'.working.logs ≡ w.working.logs)
      × (w'.working.background_jobs ≡ w.working.background_jobs)
      × (w'.sequences.next_log ≡ w.sequences.next_log)
      × (w'.transaction_time ≡ w.transaction_time)
      × (w'.committed ≡ w.committed)
  unfolding upsert_group
  upsert_group-keeps = elim (Option-cases known) [
    | inl e ↦ rw e (refl, refl, refl, refl, refl)
    | inr (g, e) ↦ rw e (refl, refl, refl, refl, refl)
  ]

  -- The table afterwards.
  pub upsert_group-groups :
      ((known ≡ none)
        × ((upsert_group v w).1.working.error_groups
            ≡ insert_row (new_group w.sequences.next_group w.transaction_time v) groups))
      ⊎ ((g : ErrorGroup) × (known ≡ some g)
          × ((upsert_group v w).1.working.error_groups
              ≡ update_where (is_same_group v) (seen_again w.transaction_time v) groups))
  unfolding upsert_group
  upsert_group-groups = elim (Option-cases known) [
    | inl e ↦ inl (e, rw e refl)
    | inr (g, e) ↦ inr (g, e, rw e refl)
  ]

-- At most one group for each service, environment and fingerprint.
abbrev pub GroupsAreUnique : List ErrorGroup → Type 0
GroupsAreUnique gs = (v : GroupValues) → length (select_where (is_same_group v) gs) ≤ 1

-- Two keys that fit one row are the same.
same_key :
    (id : ℕ) (now : Instant) (u v : GroupValues) (gs : List ErrorGroup)
    → is_same_group u (new_group id now v) ≡ true
    → find_first (is_same_group v) gs ≡ none
    → find_first (is_same_group u) gs ≡ none
same_key id now u v gs fits free =
    let service : v.service_name ≡ u.service_name =
      text_eq→eq v.service_name u.service_name (ground arith) in
    let environment : v.environment ≡ u.environment =
      environment_eq→eq v.environment u.environment (ground arith) in
    let fingerprint : v.fingerprint ≡ u.fingerprint =
      text_eq→eq v.fingerprint u.fingerprint (ground arith) in
    rw (← service, ← environment, ← fingerprint) free

pub upsert_group-GroupsAreUnique :
    {env : Env} (v : GroupValues) (w : World env)
    → GroupsAreUnique w.working.error_groups
    → GroupsAreUnique (upsert_group v w).1.working.error_groups
upsert_group-GroupsAreUnique v w unique u = elim (upsert_group-groups v w) [
  | inr (g, found, table) ↦
      rw
        (
          table,
          length-select_where-update_where (is_same_group u) (is_same_group v) _ _
              (same_group_kept w.transaction_time v u),
        )
        (unique u)
  | inl (free, table) ↦
      rw (table, length-select_where-insert_row (is_same_group u) _ w.working.error_groups)
        (elim (Bool-cases
          (is_same_group u (new_group w.sequences.next_group w.transaction_time v))) [
            | inr other ↦ rw other (omega (arith, unique u))
            | inl fits ↦
                rw
                  (
                    fits,
                    select_where-none _ _
                        (same_key w.sequences.next_group w.transaction_time u v _ fits free),
                  )
                  (omega arith)
          ])
]
