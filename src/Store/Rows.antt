-- ===== src/Store/Rows.antt =====
-- One row of `workflow_jobs`, before and after a statement.
use anchora.Prelude.{
  ℕ, String, ◌≡◌, refl, sym, ap, ◌∙◌, subst, Bool, true, ◌&&◌, some, Bool-cases, List, [], ◌∷◌,
  ◌++◌, ◌==◌, if◌then◌else◌, arith, inl, inr, keys, contains, filter,
}
use anchora.Store.{
  JobRow, Operation, find_job, insert_job, update, exec, claimable, set_claimed, runs_for,
  set_extended, set_pending, finishable, set_finished, is_abandoned, store_limit,
}

-- What a statement does to one row.
abbrev pub act : Operation → ℕ → List JobRow → JobRow → JobRow
act (Operation.creates id status) now rows row = row
act (Operation.claims id worker lease) now rows row =
    if claimable id worker now row then set_claimed worker lease now row else row
act (Operation.extends id worker lease) now rows row =
    if runs_for id worker row then set_extended lease now row else row
act (Operation.finishes id worker status error) now rows row =
    if finishable id worker row then set_finished status error now row else row
act (Operation.releases id worker) now rows row =
    if runs_for id worker row then set_pending now row else row
act (Operation.reclaims select grace limit) now rows row =
    if contains row.id (select (store_limit limit) (filter (is_abandoned grace now) rows))
      && is_abandoned grace now row
    then set_pending now row
    else row

find-update :
    (matches : JobRow → Bool) (set : JobRow → JobRow)
    → ((row : JobRow) → (set row).id ≡ row.id)
    → (id : String) (rows : List JobRow) (row : JobRow) → find_job id rows ≡ some row
    → find_job id (update matches set rows) ≡ some (if matches row then set row else row)
unfolding find_job
find-update matches set kept id [] row e = absurd (cc)
find-update matches set kept id (r ∷ rows) row e = elim (Bool-cases (r.id == id)) [
  | inl here ↦
      let same : r ≡ row = ground (arith, e, here) in
      elim (Bool-cases (matches r)) [
        | inl hit ↦ rw (sym same, hit, find_job, kept r, here) refl
        | inr miss ↦ rw (sym same, miss, find_job, here) refl
      ]
  | inr later ↦
      let rest = find-update matches set kept id rows row (ground (arith, e, later)) in
      elim (Bool-cases (matches r)) [
        | inl hit ↦ rw (hit, find_job, kept r, later) rest
        | inr miss ↦ rw (miss, find_job, later) rest
      ]
]

find-append :
    (id : String) (rows more : List JobRow) (row : JobRow)
    → find_job id rows ≡ some row
    → find_job id (rows ++ more) ≡ some row
unfolding find_job
find-append id [] more row e = absurd (cc)
find-append id (r ∷ rows) more row e = ground (arith, e, find-append id rows more row)

pub found_id :
    (id : String) (rows : List JobRow) (row : JobRow)
    → find_job id rows ≡ some row
    → (row.id == id) ≡ true
unfolding find_job
found_id id [] row e = absurd (cc)
found_id id (r ∷ rows) row e = elim (Bool-cases (r.id == id)) [
  | inl here ↦
      let found : r ≡ row = ground (arith, e, here) in subst (λ x. (x.id == id) ≡ true) found here
  | inr later ↦ found_id id rows row (ground (arith, e, later))
]

pub find_job-matched :
    (matches : JobRow → Bool) (id : String) (rows : List JobRow) (row : JobRow)
    → find_job id rows ≡ some row
    → matches row ≡ true
    → contains id (keys (λ (r : JobRow). r.id) (filter matches rows)) ≡ true
unfolding find_job
find_job-matched matches id [] row e m = absurd (cc)
find_job-matched matches id (r ∷ rows) row e m = elim (Bool-cases (r.id == id)) [
  | inl here ↦
      let same : r ≡ row = ground (arith, e, here) in
      let hit : matches r ≡ true = ap matches same ∙ m in rw hit (ground (arith, here))
  | inr later ↦
      let rest = find_job-matched matches id rows row (ground (arith, e, later)) m in
      elim (Bool-cases (matches r)) [
        | inl hit ↦ rw hit (ground (arith, rest))
        | inr miss ↦ rw miss rest
      ]
]

-- A statement does to the row of a job what it does to that row alone.
pub find-exec :
    (op : Operation) (now : ℕ) (id : String) (rows : List JobRow) (row : JobRow)
    → find_job id rows ≡ some row
    → find_job id (exec op now rows) ≡ some (act op now rows row)
unfolding exec insert_job
find-exec (Operation.creates k status) now id rows row e =
    elim (Bool-cases (contains k (keys (λ r. r.id) rows))) [
      | inl taken ↦ rw (taken, exec, insert_job) e
      | inr free ↦ rw (free, exec, insert_job) (find-append id rows _ row e)
    ]
find-exec (Operation.claims k worker lease) now id rows row e =
    find-update (claimable k worker now) (set_claimed worker lease now) (λ r. refl) id rows row e
find-exec (Operation.extends k worker lease) now id rows row e =
    find-update (runs_for k worker) (set_extended lease now) (λ r. refl) id rows row e
find-exec (Operation.finishes k worker status error) now id rows row e =
    find-update (finishable k worker) (set_finished status error now) (λ r. refl) id rows row e
find-exec (Operation.releases k worker) now id rows row e =
    find-update (runs_for k worker) (set_pending now) (λ r. refl) id rows row e
find-exec (Operation.reclaims select grace limit) now id rows row e =
    find-update
      (λ r.
        contains r.id (select (store_limit limit) (filter (is_abandoned grace now) rows))
        && is_abandoned grace now r)
      (set_pending now) (λ r. refl) id rows row e
