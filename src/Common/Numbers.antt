-- ===== src/Common/Numbers.antt =====
-- common/utils.go: rounding on `uint64`, and the helpers on slices of numbers and strings.
pub mod Rounding
pub mod Erasing
use archoncloud_go.Base.{
  ℕ, zero, suc, ◌+◌, ◌-◌, ◌*◌, ◌/◌, ◌%◌, ◌^◌, List, [], ◌∷◌, ◌++◌, length, drop, replicate, ltb,
  leb, ◌==◌, if◌then◌else◌, bytes_eq, Bool, true, false, Result, ok, err, panic, ◌>>=◌, Option,
  none, some, map,
}
use archoncloud_go.Base.Int.{ℤ, pos, to_u64, to_i64, ltb_ℤ}
use archoncloud_go.Common.Bytes.{Bytes}

-- A division by 0 panics.
unfoldable pub divide_round_up : ℕ → ℕ → Result ℕ
divide_round_up numerator divisor =
    if divisor == 0 then panic else ok ((numerator + divisor + 2 ^ 64 - 1) % 2 ^ 64 / divisor)

unfoldable pub round_up : ℕ → ℕ → Result ℕ
round_up num_to_round multiple =
    if multiple == 0
    then panic
    else ok ((num_to_round + multiple + 2 ^ 64 - 1) % 2 ^ 64 / multiple * multiple % 2 ^ 64)

abbrev pub mega : ℕ
mega = 1000 * 1000

unfoldable pub mega_bytes : ℤ → Result ℤ
unfolding divide_round_up
mega_bytes num_bytes = do n ← divide_round_up (to_u64 num_bytes) mega; ok (to_i64 n)

unfoldable pub max_int : ℤ → ℤ → ℤ
max_int x y = if ltb_ℤ x y then y else x

unfoldable pub min_int : ℤ → ℤ → ℤ
min_int x y = if ltb_ℤ y x then y else x

-- The last element, for the slice that is not empty.
abbrev pub last_of {ℓ} : {A : Type ℓ} → A → List A → A
last_of a [] = a
last_of a (x ∷ xs) = last_of x xs

abbrev pub but_last {ℓ} : {A : Type ℓ} → A → List A → List A
but_last a [] = []
but_last a (x ∷ xs) = a ∷ but_last x xs

-- `a[i] = a[len(a)-1]; return a[:len(a)-1]`, given what stands behind position i.
abbrev pub swap_out {ℓ} : {A : Type ℓ} → List A → List A
swap_out [] = []
swap_out (y ∷ ys) = last_of y ys ∷ but_last y ys

unfoldable pub erase_int : List ℕ → ℕ → List ℕ
erase_int [] x = []
erase_int (n ∷ a) x = let rest = erase_int a x in if x == n then swap_out a else n ∷ rest

-- A string is the list of its bytes.
unfoldable pub erase_string : List (List ℕ) → List ℕ → List (List ℕ)
erase_string [] x = []
erase_string (n ∷ a) x =
    let rest = erase_string a x in if bytes_eq x n then swap_out a else n ∷ rest
