-- ===== src/Prelude/Perms.antt =====
-- Reordered lists, as derivations that can be taken apart.
use mathlib.Core.Path.{refl, sym, ap}
use mathlib.Core.Bool.{Bool, not}
use mathlib.Core.Logic.{inl, inr}
use mathlib.Core.List.{List, [], ◌∷◌, ◌++◌, Permᴰ}
use Prim.Native.String.{String}
use anchora.Prelude.Tests.{Bool-cases}
use anchora.Prelude.Lists.{filter}

module _ {ℓ} {A : Type ℓ} where
  pub perm_refl : (xs : List A) → Permᴰ xs xs
  perm_refl [] = Permᴰ.nil
  perm_refl (x ∷ xs) = Permᴰ.cons refl (perm_refl xs)

  pub perm_middle : (x : A) (xs ys : List A) → Permᴰ (xs ++ x ∷ ys) (x ∷ xs ++ ys)
  perm_middle x [] ys = perm_refl (x ∷ ys)
  perm_middle x (y ∷ xs) ys =
      Permᴰ.trans (Permᴰ.cons refl (perm_middle x xs ys)) (Permᴰ.swap refl refl)

  pub perm_middle_sym : (x : A) (xs ys : List A) → Permᴰ (x ∷ xs ++ ys) (xs ++ x ∷ ys)
  perm_middle_sym x [] ys = perm_refl (x ∷ ys)
  perm_middle_sym x (y ∷ xs) ys =
      Permᴰ.trans (Permᴰ.swap refl refl) (Permᴰ.cons refl (perm_middle_sym x xs ys))

  pub perm_append_right : {xs ys : List A} (zs : List A) → Permᴰ xs ys → Permᴰ (xs ++ zs) (ys ++ zs)
  perm_append_right zs Permᴰ.nil = perm_refl zs
  perm_append_right zs (Permᴰ.cons e p) = Permᴰ.cons e (perm_append_right zs p)
  perm_append_right zs (Permᴰ.swap e f) = Permᴰ.swap e f
  perm_append_right zs (Permᴰ.trans p q) =
      Permᴰ.trans (perm_append_right zs p) (perm_append_right zs q)

  pub perm_sym : {xs ys : List A} → Permᴰ xs ys → Permᴰ ys xs
  perm_sym Permᴰ.nil = Permᴰ.nil
  perm_sym (Permᴰ.cons e p) = Permᴰ.cons (sym e) (perm_sym p)
  perm_sym (Permᴰ.swap e f) = Permᴰ.swap (sym f) (sym e)
  perm_sym (Permᴰ.trans p q) = Permᴰ.trans (perm_sym q) (perm_sym p)

  -- A list is what passes a test and what does not.
  pub perm_partition :
      (p : A → Bool) (xs : List A) → Permᴰ xs (filter p xs ++ filter (λ x. not (p x)) xs)
  perm_partition p [] = Permᴰ.nil
  perm_partition p (x ∷ xs) = elim (Bool-cases (p x)) [
    | inl e ↦ rw e (Permᴰ.cons refl (perm_partition p xs))
    | inr e ↦ rw e (
        Permᴰ.trans (Permᴰ.cons refl (perm_partition p xs))
          (perm_middle_sym x (filter p xs) (filter (λ y. not (p y)) xs)))
  ]

  abbrev pub keys : (A → String) → List A → List String
  keys key [] = []
  keys key (x ∷ xs) = key x ∷ keys key xs

  pub keys-perm :
      (key : A → String) {xs ys : List A} → Permᴰ xs ys → Permᴰ (keys key xs) (keys key ys)
  keys-perm key Permᴰ.nil = Permᴰ.nil
  keys-perm key (Permᴰ.cons e p) = Permᴰ.cons (ap key e) (keys-perm key p)
  keys-perm key (Permᴰ.swap e f) = Permᴰ.swap (ap key e) (ap key f)
  keys-perm key (Permᴰ.trans p q) = Permᴰ.trans (keys-perm key p) (keys-perm key q)
