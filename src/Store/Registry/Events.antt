-- ===== src/Store/Registry/Events.antt =====
-- The event log that a reader resumes, and the workers that a sweep leaves.
use anchora.Prelude.{
  ℕ, suc, ◌+◌, ◌<◌, String, ◌≡◌, refl, sym, ap, ◌∙◌, Bool, true, false, not, ◌&&◌, some, Bool-cases,
  List, [], ◌∷◌, ◌++◌, filter, ltb, leb, contains, ◌==◌, ==_refl, arith, inl, inr, All,
}
use anchora.Store.{interval}
use anchora.Store.Registry.{
  EventRow, Log, new_event, append_event, insert_event, sort_events, events, WorkerInfo, is_silent,
  prune_workers, workers, sort_by_start,
}

-- The rows are in the order of their IDs, each below the next value of the sequence.
abbrev pub IsOrdered : ℕ → List EventRow → Type 0
IsOrdered next [] = Unit
IsOrdered next (e ∷ rows) = (e.id < next) × All (λ x. e.id < x.id) rows × IsOrdered next rows

pub filter-All :
    (P : EventRow → Type 0) (p : EventRow → Bool) (rows : List EventRow)
    → All P rows
    → All P (filter p rows)
filter-All P p [] h = tt
filter-All P p (e ∷ rows) h = elim (Bool-cases (p e)) [
  | inl hit ↦ rw hit (h.0, filter-All P p rows h.1)
  | inr miss ↦ rw miss (filter-All P p rows h.1)
]

insert-first :
    (e : EventRow) (rows : List EventRow)
    → All (λ x. e.id < x.id) rows
    → insert_event e rows ≡ e ∷ rows
unfolding insert_event
insert-first e [] h = refl
insert-first e (x ∷ rows) h =
    let later : ltb x.id e.id ≡ false = ground (arith, h.0) in rw later refl

pub sort-filter :
    (next : ℕ) (p : EventRow → Bool) (rows : List EventRow)
    → IsOrdered next rows
    → sort_events (filter p rows) ≡ filter p rows
unfolding sort_events
sort-filter next p [] h = refl
sort-filter next p (e ∷ rows) h = elim (Bool-cases (p e)) [
  | inl hit ↦ rw hit (
      ap (insert_event e) (sort-filter next p rows h.2)
      ∙ insert-first e (filter p rows) (filter-All (λ x. e.id < x.id) p rows h.1))
  | inr miss ↦ rw miss (sort-filter next p rows h.2)
]

pub filter-append :
    (p : EventRow → Bool) (rows more : List EventRow)
    → filter p (rows ++ more) ≡ filter p rows ++ filter p more
filter-append p [] more = refl
filter-append p (e ∷ rows) more = elim (Bool-cases (p e)) [
  | inl hit ↦ rw hit (ap (λ l. e ∷ l) (filter-append p rows more))
  | inr miss ↦ rw miss (filter-append p rows more)
]

All-last :
    (k next : ℕ) (rows : List EventRow) (new : EventRow)
    → k < next
    → new.id ≡ next
    → All (λ x. k < x.id) rows
    → All (λ x. k < x.id) (rows ++ new ∷ [])
All-last k next [] new less e h = (omega (arith, e), tt)
All-last k next (x ∷ rows) new less e h = (h.0, All-last k next rows new less e h.1)

IsOrdered-append :
    (next : ℕ) (rows : List EventRow) (new : EventRow)
    → new.id ≡ next
    → IsOrdered next rows
    → IsOrdered (suc next) (rows ++ new ∷ [])
IsOrdered-append next [] new e h = (omega (arith, e), tt, tt)
IsOrdered-append next (x ∷ rows) new e h = (
  omega (arith, h.0),
  All-last x.id next rows new h.0 e h.1,
  IsOrdered-append next rows new e h.2,
)

-- On a log whose rows are in the order of their IDs, below the next value of the sequence, an append
-- for a known job succeeds and keeps this order; a reader of the job that has seen less than the next
-- value then gets what it would have got before, and the new event at the end.
pub events-append_event :
    (jobs : List String) (job_id type payload : String) (now last_seen : ℕ) (log : Log)
    → contains job_id jobs ≡ true
    → IsOrdered log.next log.rows
    → last_seen < log.next
    → (log' : Log) × (append_event jobs job_id type payload now log ≡ some log')
      × IsOrdered log'.next log'.rows
      × (events job_id last_seen log'
          ≡ events job_id last_seen log ++ new_event log.next job_id type payload now ∷ [])
unfolding append_event events
events-append_event jobs job_id type payload now last_seen log known ordered less =
    let new = new_event log.next job_id type payload now in
    let mine : EventRow → Bool = λ e. e.job_id == job_id && ltb last_seen e.id in
    let ordered' = IsOrdered-append log.next log.rows new refl ordered in
    let seen : mine new ≡ true = ground (arith, ==_refl job_id, less) in
    let grown : filter mine (log.rows ++ new ∷ []) ≡ filter mine log.rows ++ new ∷ [] =
      filter-append mine log.rows (new ∷ []) ∙ rw seen refl in
    (
      record { rows = log.rows ++ new ∷ []; next = suc log.next },
      rw (known, append_event) refl,
      ordered',
      sort-filter (suc log.next) mine (log.rows ++ new ∷ []) ordered'
          ∙ grown
          ∙ ap (λ l. l ++ new ∷ []) (sym (sort-filter log.next mine log.rows ordered)),
    )

-- A sweep of the registry removes no worker that is listed at that time, for any time to live.
pub workers-prune_workers :
    (ttl now : ℕ) (rows : List WorkerInfo)
    → workers ttl now (prune_workers ttl now rows).0 ≡ workers ttl now rows
unfolding workers prune_workers
workers-prune_workers ttl now rows = ap sort_by_start (kept rows)
  where
    kept :
        (l : List WorkerInfo)
        → filter
            (λ (w : WorkerInfo). leb now (w.last_beat_at + interval ttl))
            (filter (λ (w : WorkerInfo). not (is_silent ttl now w)) l)
          ≡ filter (λ (w : WorkerInfo). leb now (w.last_beat_at + interval ttl)) l
    kept [] = refl
    kept (w ∷ l) = elim (Bool-cases (is_silent ttl now w)) [
      | inl silent ↦
          let gone : leb now (w.last_beat_at + interval ttl) ≡ false = ground (arith, silent) in
          rw (silent, gone) (kept l)
      | inr heard ↦
          let stays : leb now (w.last_beat_at + interval ttl) ≡ true = ground (arith, heard) in
          rw (heard, stays) (ap (λ t. w ∷ t) (kept l))
    ]
