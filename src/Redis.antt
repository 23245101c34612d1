-- ===== src/Redis.antt =====
-- The Redis server that internal/jobs/queue.go calls: an interface with the documented effect of
-- each command the scripts use. A database is seen as its lists, sorted sets and hashes.
pub mod Memory
use anchora.Prelude.{
  ℕ, zero, suc, ◌≤◌, ◌<◌, String, ◌≡◌, Option, none, some, List, [], ◌∷◌, length, contains, assign,
  true, All,
}

pub record View : Type 0 where
  pub lists : String → List String
  pub scores : String → String → Option ℕ
  pub fields : String → String → Option String

-- The tail end of a list, which RPOP takes.
unfoldable pub last : List String → Option String
last [] = none
last (x ∷ []) = some x
last (x ∷ y ∷ l) = last (y ∷ l)

unfoldable pub init : List String → List String
init [] = []
init (x ∷ []) = []
init (x ∷ y ∷ l) = x ∷ init (y ∷ l)

unfoldable pub take : ℕ → List String → List String
take zero l = []
take (suc n) [] = []
take (suc n) (x ∷ l) = x ∷ take n l

-- A member whose score is at most a bound.
abbrev pub IsDue : View → String → ℕ → String → Type 0
IsDue v key bound x = (n : ℕ) × (v.scores key x ≡ some n) × (n ≤ bound)

pub record Redis : Type 1 where
  pub Db : Type 0
  pub view : Db → View
  pub lpush : String → String → Db → Db
  pub rpop : String → Db → Db
  pub ltrim : String → ℕ → Db → Db
  pub zadd : String → ℕ → String → Db → Db
  pub zrem : String → String → Db → Db
  pub hset : String → String → String → Db → Db
  pub hdel : String → String → Db → Db
  pub zrangebyscore : String → ℕ → ℕ → Db → List String
  pub view_lpush :
      (key x : String) (db : Db)
      → view (lpush key x db)
        ≡ record (view db) { lists = assign (view db).lists key (x ∷ (view db).lists key) }
  pub view_rpop :
      (key : String) (db : Db)
      → view (rpop key db)
        ≡ record (view db) { lists = assign (view db).lists key (init ((view db).lists key)) }
  pub view_ltrim :
      (key : String) (stop : ℕ) (db : Db)
      → view (ltrim key stop db) ≡ record (view db) {
        lists = assign (view db).lists key (take (suc stop) ((view db).lists key));
      }
  pub view_zadd :
      (key : String) (score : ℕ) (x : String) (db : Db)
      → view (zadd key score x db) ≡ record (view db) {
        scores = assign (view db).scores key (assign ((view db).scores key) x (some score));
      }
  pub view_zrem :
      (key x : String) (db : Db)
      → view (zrem key x db) ≡ record (view db) {
        scores = assign (view db).scores key (assign ((view db).scores key) x none);
      }
  pub view_hset :
      (key x value : String) (db : Db)
      → view (hset key x value db) ≡ record (view db) {
        fields = assign (view db).fields key (assign ((view db).fields key) x (some value));
      }
  pub view_hdel :
      (key x : String) (db : Db)
      → view (hdel key x db) ≡ record (view db) {
        fields = assign (view db).fields key (assign ((view db).fields key) x none);
      }
  pub zrangebyscore_due :
      (key : String) (bound limit : ℕ) (db : Db)
      → All (IsDue (view db) key bound) (zrangebyscore key bound limit db)
  pub zrangebyscore_all :
      (key : String) (bound limit : ℕ) (db : Db) (x : String)
      → length (zrangebyscore key bound limit db) < limit
      → IsDue (view db) key bound x
      → contains x (zrangebyscore key bound limit db) ≡ true
