-- ===== src/Base/Remove.antt =====
-- Taking a number out of a list, as `list_del_init` unlinks a node.
use Prim.Native.Nat.{ℕ, ◌+◌, ◌-◌, ◌≤◌, min}
use mathlib.Core.Path.{◌≡◌, refl, ap, sym}
use mathlib.Core.Logic.{inl, inr}
use mathlib.Core.List.{List, [], ◌∷◌, ◌++◌}
use native.Mathlib.Omega.{arith}
use vsc.Base.Tests.{◌==◌, if◌then◌else◌, Bool-cases}
use vsc.Base.Lists.{length, count, All}

unfoldable pub remove : ℕ → List ℕ → List ℕ
remove a [] = []
remove a (x ∷ xs) = if x == a then xs else x ∷ remove a xs

pub remove_absent : (a : ℕ) (xs : List ℕ) → count a xs ≡ 0 → remove a xs ≡ xs
unfolding remove
remove_absent a [] h = refl
remove_absent a (x ∷ xs) h = ground (arith, remove_absent a xs)

pub remove_head : (a : ℕ) (xs : List ℕ) → remove a (a ∷ xs) ≡ xs
unfolding remove
remove_head a xs = ground arith

pub count-remove :
    (a b : ℕ) (xs : List ℕ)
    → count b (remove a xs) ≡ (if a == b then count b xs - 1 else count b xs)
unfolding remove
count-remove a b [] = ground arith
count-remove a b (x ∷ xs) = ground (arith, count-remove a b xs)

pub count-remove_self : (a : ℕ) (xs : List ℕ) → count a (remove a xs) ≡ count a xs - 1
count-remove_self a xs = ground (arith, count-remove a a xs)

pub length-remove : (a : ℕ) (xs : List ℕ) → length xs ≡ length (remove a xs) + min 1 (count a xs)
unfolding remove
length-remove a [] = omega arith
length-remove a (x ∷ xs) = ground (arith, length-remove a xs)

pub All-remove {κ} : (P : ℕ → Type κ) (a : ℕ) (xs : List ℕ) → All P xs → All P (remove a xs)
unfolding remove
All-remove P a [] h = tt
All-remove P a (x ∷ xs) h = ground (arith, All-remove P a xs h.1)

pub remove-append :
    (a : ℕ) (xs ys : List ℕ) → count a xs ≡ 0 → remove a (xs ++ ys) ≡ xs ++ remove a ys
unfolding remove
remove-append a [] ys h = refl
remove-append a (x ∷ xs) ys h = ground (arith, remove-append a xs ys)

pub remove_once :
    (a : ℕ) (xs ys : List ℕ)
    → count a xs + count a ys ≤ 1
    → remove a (xs ++ ys) ≡ remove a xs ++ remove a ys
unfolding remove
remove_once a [] ys h = refl
remove_once a (x ∷ xs) ys h = elim (Bool-cases (x == a)) [
  | inl e ↦ rw e (ap (◌++◌ xs) (sym (remove_absent a ys (ground arith))))
  | inr e ↦ rw e (ap (◌∷◌ x) (remove_once a xs ys (ground arith)))
]
