-- ===== src/Workers/Cleanup/Batches.antt =====
-- The batches of the clean-up against one DELETE of all old logs.
use loglens_api.Base.{
  ℕ, zero, suc, ◌+◌, ◌≤◌, ◌<◌, ◌≡◌, refl, ap, ◌∙◌, sym, subst, Bool, true, ◌&&◌, some, List, [],
  ◌∷◌, map, arith, length, leb, ◌==◌, All, Bool-cases, ◌⊎◌, inl, inr, length-take, min,
}
use loglens_api.Table.{select_where, delete_where, order_by}
use loglens_api.Table.Laws.{length-order_by, All-map, All-always}
use loglens_api.Table.Counts.{
  count, member, how_many, count-take-le, member-count, how_many-delete_where-le,
  how_many-delete_where, delete_where-delete_where, delete_where_none, how_many_and-le, only_one,
  All-diagonal, count-order_by, count-select_where, how_many-member,
}
use loglens_api.Models.{Instant, Log}
use loglens_api.Effect.{Env, World, Db, ok, commit}
use loglens_api.Workers.Cleanup.{is_old, next_batch, cleanup_batches}

abbrev has_id : ℕ → Log → Bool
has_id i l = l.id == i

-- No two logs have the same id.
abbrev pub HasDistinctIds : List Log → Type 0
HasDistinctIds logs = (i : ℕ) → how_many (has_id i) logs ≤ 1

-- The batch names no log more often than it is among the old ones.
count-next_batch-le :
    (i size : ℕ) (threshold : Instant) (logs : List Log)
    → count i (next_batch size threshold logs)
      ≤ how_many (λ l. is_old threshold l && has_id i l) logs
unfolding next_batch
count-next_batch-le i size threshold logs =
    let old = select_where (is_old threshold) logs in
    let sorted = order_by (λ a b. leb a.id b.id) old in
    omega (
      arith,
      count-take-le i size (map (λ l. l.id) sorted),
      count-order_by i (λ l. l.id) (λ a b. leb a.id b.id) old,
      count-select_where i (λ l. l.id) (is_old threshold) logs,
    )

-- What a batch deletes is old.
batch-is_old :
    (size : ℕ) (threshold : Instant) (logs : List Log)
    → HasDistinctIds logs
    → All
        (λ l. member (next_batch size threshold logs) l.id ≡ true → is_old threshold l ≡ true)
        logs
batch-is_old size threshold logs distinct =
    let batch = next_batch size threshold logs in
    let at : (i : ℕ)
        → All (λ l. member batch i ≡ true → has_id i l ≡ true → is_old threshold l ≡ true) logs =
      λ i. elim (Bool-cases (member batch i)) [
        | inl listed ↦
            All-map (λ l. has_id i l ≡ true → is_old threshold l ≡ true) _ logs (λ l h _. h)
              (only_one (is_old threshold) (has_id i) logs (distinct i)
                (ground (arith, member-count i batch, count-next_batch-le i size threshold logs)))
        | inr unlisted ↦ All-always _ logs (λ l listed. absurd (ground arith))
      ] in
    All-map _ _ logs (λ l h named. h named (ground arith))
      (All-diagonal (λ i l. member batch i ≡ true → has_id i l ≡ true → is_old threshold l ≡ true)
        (λ l. l.id) logs at)

-- A batch deletes as many logs as it has ids.
batch-how_many :
    (size : ℕ) (threshold : Instant) (logs : List Log)
    → HasDistinctIds logs
    → how_many (λ l. member (next_batch size threshold logs) l.id) logs
      ≡ length (next_batch size threshold logs)
batch-how_many size threshold logs distinct =
    how_many-member (λ l. l.id) (next_batch size threshold logs) logs
      (λ i. omega (
        arith,
        count-next_batch-le i size threshold logs,
        how_many_and-le (is_old threshold) (has_id i) logs,
      ))
      distinct

length-map : {A : Type 0} (f : A → ℕ) (xs : List A) → length (map f xs) ≡ length xs
length-map f [] = refl
length-map f (x ∷ xs) = ap suc (length-map f xs)

length-next_batch :
    (size : ℕ) (threshold : Instant) (logs : List Log)
    → length (next_batch size threshold logs) ≡ min size (how_many (is_old threshold) logs)
unfolding next_batch
length-next_batch size threshold logs =
    let old = select_where (is_old threshold) logs in
    let sorted = order_by (λ a b. leb a.id b.id) old in
    omega (
      arith,
      length-take size (map (λ l. l.id) sorted),
      length-map (λ l. l.id) sorted,
      length-order_by (λ a b. leb a.id b.id) old,
    )

-- The same tables, without the old logs.
abbrev pub without_old : Instant → Db → Db
without_old threshold d = record d { logs = delete_where (is_old threshold) d.logs }

nil_or_cons : {A : Type 0} (xs : List A) → (xs ≡ []) ⊎ ((x : A) × (rest : List A) × (xs ≡ x ∷ rest))
nil_or_cons [] = inl refl
nil_or_cons (x ∷ xs) = inr (x, xs, refl)

-- One round, in one equation for each way it can go.
module _ {env : Env} where
  round-ends :
      (fuel size : ℕ) (threshold : Instant) (deleted : ℕ) (w : World env)
      → next_batch size threshold w.working.logs ≡ []
      → cleanup_batches (suc fuel) size threshold deleted w ≡ (ok (some deleted), w)
  unfolding cleanup_batches
  round-ends fuel size threshold deleted w e = ground arith

  -- The state after a batch was deleted.
  abbrev after_batch : List ℕ → World env → World env
  after_batch ids w =
      (commit {env = env} (record w {
        working = record w.working { logs = delete_where (λ l. member ids l.id) w.working.logs };
      })).1

  round-goes_on :
      (fuel size : ℕ) (threshold : Instant) (deleted : ℕ) (w : World env) (i : ℕ) (is : List ℕ)
      → next_batch size threshold w.working.logs ≡ i ∷ is
      → cleanup_batches (suc fuel) size threshold deleted w
        ≡ cleanup_batches fuel size threshold (deleted + length (i ∷ is)) (after_batch (i ∷ is) w)
  unfolding cleanup_batches
  round-goes_on fuel size threshold deleted w i is e = ground arith

  pub cleanup_batches-ends :
      (fuel size : ℕ) (threshold : Instant) (deleted : ℕ) (w : World env)
      → HasDistinctIds w.working.logs
      → 1 ≤ size
      → how_many (is_old threshold) w.working.logs < fuel
      → w.working ≡ w.committed
      → let (answer, w') = cleanup_batches fuel size threshold deleted w in
        (answer ≡ ok (some (deleted + how_many (is_old threshold) w.working.logs)))
        × (w'.committed ≡ without_old threshold w.committed)
  cleanup_batches-ends zero size threshold deleted w distinct some_size enough fresh =
      absurd (omega arith)
  cleanup_batches-ends (suc fuel) size threshold deleted w distinct some_size enough fresh =
      elim (nil_or_cons (next_batch size threshold w.working.logs)) [
        | inl batch ↦
            (let none_old : how_many (is_old threshold) w.working.logs ≡ 0 =
                omega (arith, length-next_batch size threshold w.working.logs, ap length batch) in
              rw (round-ends fuel size threshold deleted w batch, none_old)
                (
                  ap (λ n. ok (some n)) (omega arith),
                  rw
                      (delete_where_none (is_old threshold) w.committed.logs
                        (ap (λ d. how_many (is_old threshold) d.logs) (sym fresh) ∙ none_old))
                      refl,
                ))
        | inr (i, is, batch) ↦
            (let w1 : World env = after_batch (i ∷ is) w in
              let logs = w.working.logs in
              let named : Log → Bool = λ l. member (i ∷ is) l.id in
              let are_old : All (λ l. named l ≡ true → is_old threshold l ≡ true) logs =
                subst (λ ids. All (λ l. member ids l.id ≡ true → is_old threshold l ≡ true) logs)
                  batch (batch-is_old size threshold logs distinct) in
              let as_many : how_many named logs ≡ length (i ∷ is) =
                subst (λ ids. how_many (λ l. member ids l.id) logs ≡ length ids) batch
                  (batch-how_many size threshold logs distinct) in
              let (answer, committed) =
                cleanup_batches-ends fuel size threshold (deleted + length (i ∷ is)) w1
                  (λ j. omega (arith, distinct j, how_many-delete_where-le (has_id j) named logs))
                  some_size
                  (omega (arith, how_many-delete_where (is_old threshold) named logs are_old))
                  refl in
              rw (round-goes_on fuel size threshold deleted w i is batch) (
                answer
                    ∙ ap (λ n. ok (some n))
                        (omega (
                          arith,
                          as_many,
                          how_many-delete_where (is_old threshold) named logs are_old,
                        )),
                committed
                    ∙ ap (λ rows. record w.working { logs = rows })
                        (delete_where-delete_where (is_old threshold) named logs are_old)
                    ∙ ap (without_old threshold) fresh,
              ))
      ]
