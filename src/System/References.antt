-- ===== src/System/References.antt =====
-- The reference of a log to its group.
use loglens_api.Base.{
  ℕ, ◌≤◌, ◌≡◌, refl, Bool, true, none, some, List, [], ◌∷◌, length, arith, inl, inr, Bool-cases,
  Option-cases, ◌==◌,
}
use loglens_api.Table.{find_first, select_where}
use loglens_api.Models.{Log, ErrorGroup}
use loglens_api.Effect.{Env, World}
use loglens_api.Logs.Counting.{in_group, occurrences}
use loglens_api.System.Reachable.{Reachable, Reachable-IsSound}

-- A row that is found is one of those that fit anything it fits.
found-counts :
    (p q : Log → Bool) (ls : List Log) {l : Log}
    → find_first p ls ≡ some l
    → q l ≡ true
    → 1 ≤ length (select_where q ls)
unfolding find_first select_where
found-counts p q [] found fits = absurd (cc found)
found-counts p q (x ∷ ls) {l} found fits = elim (Bool-cases (p x)) [
  | inl e ↦ let same : x ≡ l = ground arith in rw (same, fits) (omega arith)
  | inr e ↦
      let rest = found-counts p q ls {l = l} (ground arith) fits in
      elim (Bool-cases (q x)) [ inl o ↦ rw o (omega arith) | inr o ↦ rw o rest ]
]

occurrences-find_first :
    (n : ℕ) (gs : List ErrorGroup) → find_first (λ g. g.id == n) gs ≡ none → occurrences n gs ≡ 0
unfolding find_first occurrences
occurrences-find_first n [] gone = refl
occurrences-find_first n (g ∷ gs) gone = elim (Bool-cases (g.id == n)) [
  | inl e ↦ absurd (ground arith)
  | inr e ↦ let rest = occurrences-find_first n gs (ground arith) in rw (e, rest) refl
]

-- In every state that the program comes to, a log that is found, by whatever condition, and that belongs to
-- a group refers to a group that is in the table.
pub Reachable-group_of_log :
    {env : Env} {w : World env} (p : Log → Bool) (l : Log) (n : ℕ)
    → Reachable env w
    → find_first p w.committed.logs ≡ some l
    → l.error_group_id ≡ some n
    → (g : ErrorGroup) × (find_first (λ g. g.id == n) w.committed.error_groups ≡ some g)
Reachable-group_of_log {env} {w} p l n past found group =
    let covered = (Reachable-IsSound env past).0.logs.counts n in
    let fits : in_group n l ≡ true = rw group (ground arith) in
    let counted = found-counts p (in_group n) w.committed.logs found fits in
    elim (Option-cases (find_first (λ g. g.id == n) w.committed.error_groups)) [
      | inr there ↦ there
      | inl gone ↦
          absurd (
            omega (arith, covered, counted, occurrences-find_first n w.committed.error_groups gone))
    ]
