-- ===== src/Redis/Memory.antt =====
-- A Redis server in memory, which shows that the interface can be met.
use anchora.Prelude.{
  ℕ, ◌<◌, zero, suc, String, ◌≡◌, refl, ap, Bool, true, false, Option, none, some, Option-cases,
  List, [], ◌∷◌, length, filter, contains, assign, All, leb, leb→le, arith, ◌==◌, ==_iff,
  String-cases, Bool-cases, inl, inr,
}
use anchora.Redis.{View, IsDue, Redis, init, take}

-- All members that a sorted set has had are kept beside the view.
pub record Memory : Type 0 where
  seen : View
  members : List String
  covers : (key x : String) (n : ℕ) → seen.scores key x ≡ some n → contains x members ≡ true

-- Whether a member has a score that is at most a bound.
abbrev pub due : View → String → ℕ → String → Bool
due v key bound x = elim (v.scores key x) [ none ↦ false | some n ↦ leb n bound ]

due-IsDue :
    (v : View) (key : String) (bound : ℕ) (x : String)
    → due v key bound x ≡ true
    → IsDue v key bound x
due-IsDue v key bound x h = elim (Option-cases (v.scores key x)) [
  | inl e ↦ absurd (ground (arith, e))
  | inr (n, e) ↦ (n, e, leb→le n bound (rw (e, due) at h))
]

pub filter-IsDue :
    (v : View) (key : String) (bound : ℕ) (l : List String)
    → All (IsDue v key bound) (filter (due v key bound) l)
filter-IsDue v key bound [] = tt
filter-IsDue v key bound (x ∷ l) = elim (Bool-cases (due v key bound x)) [
  | inl e ↦ rw (All, e) (due-IsDue v key bound x e, filter-IsDue v key bound l)
  | inr e ↦ rw (All, e) (filter-IsDue v key bound l)
]

pub take-All : (P : String → Type 0) (n : ℕ) (l : List String) → All P l → All P (take n l)
unfolding take
take-All P zero l h = tt
take-All P (suc n) [] h = tt
take-All P (suc n) (x ∷ l) h = (h.0, take-All P n l h.1)

pub take_short : (n : ℕ) (l : List String) → length (take n l) < n → take n l ≡ l
unfolding take
take_short zero l h = absurd (omega arith)
take_short (suc n) [] h = refl
take_short (suc n) (x ∷ l) h = ap (λ t. x ∷ t) (take_short n l (omega arith))

pub contains-filter :
    (p : String → Bool) (k : String) (l : List String)
    → p k ≡ true
    → contains k l ≡ true
    → contains k (filter p l) ≡ true
contains-filter p k [] h m = m
contains-filter p k (x ∷ l) h m = elim (String-cases x k) [
  | inl same ↦ ground (arith, ap p same, (==_iff x k).1 same)
  | inr other ↦ ground (arith, contains-filter p k l h)
]

abbrev pub set_scores : (m : Memory) (key x : String) (o : Option ℕ) → Memory
set_scores m key x o = record {
  seen = record m.seen { scores = assign m.seen.scores key (assign (m.seen.scores key) x o) };
  members = x ∷ m.members;
  covers = λ k y n e. elim (String-cases x y) [
    | inl same ↦ ground (arith, (==_iff x y).1 same)
    | inr other ↦ elim (Bool-cases (key == k)) [
      | inl here ↦ ground (arith, m.covers key y n (rw (here, other) at e))
      | inr there ↦ ground (arith, m.covers k y n (rw there at e))
    ]
  ];
}

abbrev pub set_view :
    (m : Memory) (lists : String → List String) (fields : String → String → Option String) → Memory
set_view m lists fields = record {
  seen = record { lists = lists; scores = m.seen.scores; fields = fields };
  members = m.members;
  covers = m.covers;
}

abbrev pub range : String → ℕ → ℕ → Memory → List String
range key bound limit m = take limit (filter (due m.seen key bound) m.members)

abbrev pub memory : Redis
memory = record {
  Db = Memory;
  view = λ m. m.seen;
  lpush = λ key x m. set_view m (assign m.seen.lists key (x ∷ m.seen.lists key)) m.seen.fields;
  rpop = λ key m. set_view m (assign m.seen.lists key (init (m.seen.lists key))) m.seen.fields;
  ltrim = λ key stop m.
      set_view m (assign m.seen.lists key (take (suc stop) (m.seen.lists key))) m.seen.fields;
  zadd = λ key score x m. set_scores m key x (some score);
  zrem = λ key x m. set_scores m key x none;
  hset = λ key x value m.
      set_view m m.seen.lists
        (assign m.seen.fields key (assign (m.seen.fields key) x (some value)));
  hdel = λ key x m.
      set_view m m.seen.lists (assign m.seen.fields key (assign (m.seen.fields key) x none));
  zrangebyscore = range;
  view_lpush = λ key x m. refl;
  view_rpop = λ key m. refl;
  view_ltrim = λ key stop m. refl;
  view_zadd = λ key score x m. refl;
  view_zrem = λ key x m. refl;
  view_hset = λ key x value m. refl;
  view_hdel = λ key x m. refl;
  zrangebyscore_due = λ key bound limit m.
      take-All (IsDue m.seen key bound) limit (filter (due m.seen key bound) m.members)
        (filter-IsDue m.seen key bound m.members);
  zrangebyscore_all = λ key bound limit m x short (n, e, le).
      rw (take_short limit (filter (due m.seen key bound) m.members) short) (
        contains-filter (due m.seen key bound) x m.members (ground (arith, e, le))
          (m.covers key x n e));
}

-- A database without any keys.
abbrev pub empty : Memory
empty = record {
  seen = record { lists = λ key. []; scores = λ key x. none; fields = λ key x. none };
  members = [];
  covers = λ key x n e. absurd (cc);
}
