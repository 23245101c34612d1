-- ===== src/HttpApi/Stream/Resumed.antt =====
-- internal/httpapi/router.go, eventsHandler: what a poll returns that resumes another, on a log that grows.
use anchora.Prelude.{
  ℕ, ◌<◌, ◌≤◌, String, Bool, true, false, ◌&&◌, List, [], ◌∷◌, ◌++◌, filter, ltb, ◌==◌, ◌≡◌, refl,
  ap, ◌∙◌, ◌⊎◌, inl, inr, Bool-cases, All, arith, if◌then◌else◌,
}
use anchora.Store.Registry.{EventRow, Log, events}
use anchora.Store.Registry.Events.{IsOrdered, filter-All, sort-filter, filter-append}
use anchora.HttpApi.Stream.{last_seen}

-- The second log has further rows, with IDs from the next value of the first one on.
abbrev pub Grows : Log → Log → Type 0
Grows log log' =
    (new : List EventRow) × (log'.rows ≡ log.rows ++ new) × All (λ e. log.next ≤ e.id) new

-- Each log is in order, and every later one grows from it.
abbrev pub Growing : List Log → Type 0
Growing [] = Unit {0}
Growing (log ∷ logs) = IsOrdered log.next log.rows × All (Grows log) logs × Growing logs

abbrev mine : String → ℕ → EventRow → Bool
mine id seen e = e.job_id == id && ltb seen e.id

filter-above :
    (id : String) (seen : ℕ) (rows : List EventRow)
    → All (λ e. seen < e.id) (filter (mine id seen) rows)
filter-above id seen [] = tt
filter-above id seen (e ∷ rows) = elim (Bool-cases (mine id seen e)) [
  | inl hit ↦ rw hit (ground (arith, hit), filter-above id seen rows)
  | inr miss ↦ rw miss (filter-above id seen rows)
]

IsOrdered-filter :
    (next : ℕ) (p : EventRow → Bool) (rows : List EventRow)
    → IsOrdered next rows
    → IsOrdered next (filter p rows)
IsOrdered-filter next p [] h = tt
IsOrdered-filter next p (e ∷ rows) h = elim (Bool-cases (p e)) [
  | inl hit ↦
      rw hit (h.0, filter-All (λ x. e.id < x.id) p rows h.1, IsOrdered-filter next p rows h.2)
  | inr miss ↦ rw miss (IsOrdered-filter next p rows h.2)
]

last_seen-bounds :
    (next seen : ℕ) (rows : List EventRow)
    → IsOrdered next rows
    → All (λ e. seen < e.id) rows
    → All (λ e. e.id ≤ last_seen seen rows) rows
      × (seen ≤ last_seen seen rows)
      × ((last_seen seen rows ≡ seen) ⊎ (last_seen seen rows < next))
unfolding last_seen
last_seen-bounds next seen [] h above = (tt, omega arith, inl refl)
last_seen-bounds next seen (e ∷ rows) h above =
    let (below, start, end) = last_seen-bounds next e.id rows h.2 h.1 in
    (
      (start, below),
      omega (arith, start, above.0),
      inr (elim end [ inl same ↦ omega (arith, same, h.0) | inr less ↦ less ]),
    )

All-if :
    (P : EventRow → Type 0) (e : EventRow) (rows : List EventRow) (b : Bool)
    → All P (if b then e ∷ rows else rows)
    → (b ≡ true → P e) × All P rows
All-if P e rows true h = (λ t. h.0, h.1)
All-if P e rows false h = (λ t. absurd (cc), h)

-- What was read is not read again.
filter-read :
    (id : String) (seen last : ℕ) (rows : List EventRow)
    → All (λ e. e.id ≤ last) (filter (mine id seen) rows)
    → seen ≤ last
    → filter (mine id last) rows ≡ []
filter-read id seen last [] below le = refl
filter-read id seen last (e ∷ rows) below le =
    let (first, rest) =
      All-if (λ x. x.id ≤ last) e (filter (mine id seen) rows) (mine id seen e) below in
    let gone : mine id last e ≡ false = elim (Bool-cases (mine id seen e)) [
      | inl hit ↦ ground (arith, first hit)
      | inr miss ↦ ground (arith, miss, le)
    ] in
    rw gone (filter-read id seen last rows rest le)

filter-new :
    (id : String) (seen last next : ℕ) (rows : List EventRow)
    → seen ≤ last
    → (last ≡ seen) ⊎ (last < next)
    → All (λ e. next ≤ e.id) rows
    → filter (mine id last) rows ≡ filter (mine id seen) rows
filter-new id seen last next [] le b h = refl
filter-new id seen last next (e ∷ rows) le b h =
    let rest = filter-new id seen last next rows le b h.1 in
    let same : mine id last e ≡ mine id seen e = elim b [
      | inl unread ↦ ap (λ k. mine id k e) unread
      | inr less ↦ ground (arith, le, less, h.0)
    ] in
    elim (Bool-cases (mine id seen e)) [
      | inl hit ↦ rw (same, hit) (ap (λ l. e ∷ l) rest)
      | inr miss ↦ rw (same, miss) rest
    ]

events-filter :
    (id : String) (seen : ℕ) (log : Log)
    → IsOrdered log.next log.rows
    → events id seen log ≡ filter (mine id seen) log.rows
unfolding events
events-filter id seen log h = sort-filter log.next (mine id seen) log.rows h

-- A poll from where the last one ended returns what is new since.
pub events-resumed :
    (id : String) (seen : ℕ) (log log' : Log)
    → IsOrdered log.next log.rows
    → IsOrdered log'.next log'.rows
    → Grows log log'
    → events id seen log ++ events id (last_seen seen (events id seen log)) log'
      ≡ events id seen log'
events-resumed id seen log log' h h' (new, grown, above) =
    let read = filter (mine id seen) log.rows in
    let last = last_seen seen read in
    let (below, le, b) =
      last_seen-bounds log.next seen read (IsOrdered-filter log.next (mine id seen) log.rows h)
        (filter-above id seen log.rows) in
    let later : filter (mine id last) (log.rows ++ new) ≡ filter (mine id seen) new =
      filter-append (mine id last) log.rows new
      ∙ ap (λ l. l ++ filter (mine id last) new) (filter-read id seen last log.rows below le)
      ∙ filter-new id seen last log.next new le b above in
    rw
      (
        events-filter id seen log h,
        events-filter id seen log' h',
        events-filter id last log' h',
        grown,
        later,
        filter-append (mine id seen) log.rows new,
      )
      refl
