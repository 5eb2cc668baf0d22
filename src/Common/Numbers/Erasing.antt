-- ===== src/Common/Numbers/Erasing.antt =====
-- What `EraseInt` takes away: one element, and no other.
use archoncloud_go.Base.{
  ℕ, suc, ◌≤◌, ◌≡◌, refl, sym, ap, ◌∙◌, List, [], ◌∷◌, length, arith, ◌⊎◌, inl, inr, ==_iff,
  Bool-cases, ◌==◌,
}
use mathlib.Core.List.{Memᴰ}
use mathlib.Core.List.Memᴰ
use archoncloud_go.Common.Numbers.{last_of, but_last, swap_out, erase_int}

module _ {ℓ} {A : Type ℓ} where
  length-but_last : (y : A) (ys : List A) → length (but_last y ys) ≡ length ys
  length-but_last y [] = refl
  length-but_last y (x ∷ ys) = ap suc (length-but_last x ys)

  length-swap_out : (xs : List A) → length (swap_out xs) ≡ length xs
  length-swap_out [] = refl
  length-swap_out (y ∷ ys) = ap suc (length-but_last y ys)

  mem-but_last :
      (z y : A) (ys : List A) → Memᴰ z (y ∷ ys) → (z ≡ last_of y ys) ⊎ Memᴰ z (but_last y ys)
  mem-but_last z y [] (Memᴰ.head e) = inl e
  mem-but_last z y [] (Memᴰ.tail m) = absurd (Memᴰ.not-nil m)
  mem-but_last z y (x ∷ ys) (Memᴰ.head e) = inr (Memᴰ.head e)
  mem-but_last z y (x ∷ ys) (Memᴰ.tail m) = elim (mem-but_last z x ys m) [
    | inl e ↦ inl e
    | inr k ↦ inr (Memᴰ.tail k)
  ]

  mem-swap_out : (z : A) (xs : List A) → Memᴰ z xs → Memᴰ z (swap_out xs)
  mem-swap_out z [] m = m
  mem-swap_out z (y ∷ ys) m = elim (mem-but_last z y ys m) [
    | inl e ↦ Memᴰ.head e
    | inr k ↦ Memᴰ.tail k
  ]

-- An element that is there goes, once.
pub length-erase_int : (a : List ℕ) (x : ℕ) → Memᴰ x a → suc (length (erase_int a x)) ≡ length a
unfolding erase_int
length-erase_int [] x m = absurd (Memᴰ.not-nil m)
length-erase_int (n ∷ a) x m = elim (Bool-cases (x == n)) [
  | inl e ↦ rw e (ap suc (length-swap_out a))
  | inr e ↦ elim m [
    | Memᴰ.head k ↦ let t = (==_iff x n).1 k in cc
    | Memᴰ.tail k ↦ rw e (ap suc (length-erase_int a x k))
  ]
]

pub length-erase_int_le : (a : List ℕ) (x : ℕ) → length (erase_int a x) ≤ length a
unfolding erase_int
length-erase_int_le [] x = omega arith
length-erase_int_le (n ∷ a) x = elim (Bool-cases (x == n)) [
  | inl e ↦ rw e (omega (arith, length-swap_out a))
  | inr e ↦ rw e (omega (arith, length-erase_int_le a x))
]

-- Every other element stays.
pub mem-erase_int : (a : List ℕ) (x y : ℕ) → Memᴰ y a → (y ≡ x) ⊎ Memᴰ y (erase_int a x)
unfolding erase_int
mem-erase_int [] x y m = inr m
mem-erase_int (n ∷ a) x y (Memᴰ.head e) = elim (Bool-cases (x == n)) [
  | inl t ↦ inl (e ∙ sym ((==_iff x n).0 t))
  | inr t ↦ rw t (inr (Memᴰ.head e))
]
mem-erase_int (n ∷ a) x y (Memᴰ.tail m) = elim (Bool-cases (x == n)) [
  | inl t ↦ rw t (inr (mem-swap_out y a m))
  | inr t ↦ elim (mem-erase_int a x y m) [ inl e ↦ inl e | inr k ↦ rw t (inr (Memᴰ.tail k)) ]
]
