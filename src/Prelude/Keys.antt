-- ===== src/Prelude/Keys.antt =====
-- Lists of keys: membership, absence of duplicates, and how many keys a list can hold.
use Prim.Native.Nat.{ℕ, suc, ◌+◌, ◌≤◌}
use Prim.Native.String.{String}
use mathlib.Core.Path.{◌≡◌, refl, sym, ap, ◌∙◌, subst}
use mathlib.Core.Bool.{Bool, true, false, ◌||◌}
use mathlib.Core.Logic.{inl, inr}
use mathlib.Core.List.{List, [], ◌∷◌, ◌++◌, Permᴰ}
use native.Mathlib.Omega.{arith}
use anchora.Prelude.Tests.{◌==◌, ==_iff, ==_refl, if◌then◌else◌, Bool-cases, String-cases}
use anchora.Prelude.Lists.{length, All}

-- A Go map used as a set, as the list of its keys.
abbrev pub contains : String → List String → Bool
contains k [] = false
contains k (x ∷ xs) = (x == k) || contains k xs

abbrev pub Distinct : List String → Type 0
Distinct [] = Unit
Distinct (x ∷ xs) = (contains x xs ≡ false) × Distinct xs

pub contains-append :
    (k : String) (xs ys : List String) → contains k (xs ++ ys) ≡ (contains k xs || contains k ys)
contains-append k [] ys = refl
contains-append k (x ∷ xs) ys = ground (arith, contains-append k xs ys)

-- A Go map as a function; `assign` is `m[k] = v`.
abbrev pub assign {ℓ} : {V : Type ℓ} → (String → V) → String → V → String → V
assign m k v j = if k == j then v else m j

-- How often a key stands in a list.
abbrev pub occ : String → List String → ℕ
occ k [] = 0
occ k (x ∷ xs) = (if x == k then 1 else 0) + occ k xs

erase : String → List String → List String
erase k [] = []
erase k (x ∷ xs) = if x == k then xs else x ∷ erase k xs

length-erase :
    (k : String) (xs : List String) → contains k xs ≡ true → suc (length (erase k xs)) ≡ length xs
unfolding erase
length-erase k [] h = absurd (cc)
length-erase k (x ∷ xs) h = ground (arith, length-erase k xs)

contains-erase :
    (j k : String) (xs : List String)
    → (j == k) ≡ false
    → contains j xs ≡ true
    → contains j (erase k xs) ≡ true
unfolding erase
contains-erase j k [] d h = h
contains-erase j k (x ∷ xs) d h =
    ground (arith, contains-erase j k xs, ==_iff x k, ==_iff x j, ==_iff j k)

abbrev pub Subset : List String → List String → Type 0
Subset xs ys = All (λ x. contains x ys ≡ true) xs

Subset-erase :
    (k : String) (xs ys : List String)
    → contains k xs ≡ false
    → Subset xs ys
    → Subset xs (erase k ys)
Subset-erase k [] ys d h = tt
Subset-erase k (x ∷ xs) ys d h =
    (contains-erase x k ys (ground arith) h.0, Subset-erase k xs ys (ground arith) h.1)

-- Distinct keys fit only a list that is at least as long.
pub length-le_of_Subset : (xs ys : List String) → Distinct xs → Subset xs ys → length xs ≤ length ys
length-le_of_Subset [] ys d h = omega arith
length-le_of_Subset (x ∷ xs) ys d h = omega (
  arith,
  length-le_of_Subset xs (erase x ys) d.1 (Subset-erase x xs ys d.0 h.1),
  length-erase x ys h.0,
)

-- As many distinct keys as there are: every key is one of them.
pub contains_of_length :
    (xs ys : List String) (k : String)
    → Distinct xs
    → Subset xs ys
    → length ys ≤ length xs
    → contains k ys ≡ true
    → contains k xs ≡ true
contains_of_length xs ys k d h l m = elim (Bool-cases (contains k xs)) [
  | inl e ↦ e
  | inr e ↦
      let longer : suc (length xs) ≤ length ys = length-le_of_Subset (k ∷ xs) ys (e, d) (m, h) in
      absurd (omega arith)
]

pub contains-perm : (k : String) (xs ys : List String) → Permᴰ xs ys → contains k xs ≡ contains k ys
contains-perm k _ _ Permᴰ.nil = refl
contains-perm k _ _ (Permᴰ.cons {a = a} {b = b} {l₁ = xs} {l₂ = ys} e p) =
    ground (arith, contains-perm k xs ys p, ap (λ t. t == k) e)
contains-perm k _ _ (Permᴰ.swap {a = a} {b = b} {a' = c} {b' = d} {l = l} e f) =
    ground (arith, ap (λ t. t == k) e, ap (λ t. t == k) f)
contains-perm k _ _ (Permᴰ.trans {l₁ = xs} {l₂ = ys} {l₃ = zs} p q) =
    contains-perm k xs ys p ∙ contains-perm k ys zs q

pub Distinct-perm : (xs ys : List String) → Permᴰ xs ys → Distinct xs → Distinct ys
Distinct-perm _ _ Permᴰ.nil h = tt
Distinct-perm _ _ (Permᴰ.cons {a = a} {b = b} {l₁ = xs} {l₂ = ys} e p) h = (
  sym (contains-perm b xs ys p) ∙ subst (λ t. contains t xs ≡ false) e h.0,
  Distinct-perm xs ys p h.1,
)
Distinct-perm _ _ (Permᴰ.swap {a = a} {b = b} {a' = c} {b' = d} {l = l} e f) h = (
  ground (arith, ==_iff a b, ==_iff d c, ap (λ t. contains t l) e, ap (λ t. contains t l) f),
  (subst (λ t. contains t l ≡ false) e (ground arith), h.1.1),
)
Distinct-perm _ _ (Permᴰ.trans {l₁ = xs} {l₂ = ys} {l₃ = zs} p q) h =
    Distinct-perm ys zs q (Distinct-perm xs ys p h)

pub All-of_contains {ℓ} :
    (P : String → Type ℓ) (xs : List String)
    → ((k : String) → contains k xs ≡ true → P k)
    → All P xs
All-of_contains P [] h = tt
All-of_contains P (x ∷ xs) h =
    (h x (ground (arith, ==_refl x)), All-of_contains P xs (λ k m. h k (ground arith)))

pub All-contains {ℓ} :
    (P : String → Type ℓ) (xs : List String) (k : String) → All P xs → contains k xs ≡ true → P k
All-contains P [] k h m = absurd (cc)
All-contains P (x ∷ xs) k h m = elim (String-cases x k) [
  | inl same ↦ subst P same h.0
  | inr other ↦ All-contains P xs k h.1 (ground arith)
]

pub absent_of_All :
    (k : String) (seen xs : List String)
    → All (λ x. contains x (k ∷ seen) ≡ false) xs
    → (contains k xs ≡ false) × All (λ x. contains x seen ≡ false) xs
absent_of_All k seen [] h = (refl, tt)
absent_of_All k seen (x ∷ xs) h =
    let (absent, rest) = absent_of_All k seen xs h.1 in
    (ground (arith, h.0, absent, ==_iff k x, ==_iff x k), (ground (arith, h.0), rest))

pub All-of_absent :
    (k : String) (seen xs : List String)
    → contains k xs ≡ false
    → All (λ x. contains x seen ≡ false) xs
    → All (λ x. contains x (k ∷ seen) ≡ false) xs
All-of_absent k seen [] h a = tt
All-of_absent k seen (x ∷ xs) h a =
    (ground (arith, a.0, ==_iff k x, ==_iff x k), All-of_absent k seen xs (ground arith) a.1)
