-- ===== src/Upload/Choosing/Loop.antt =====
-- The loop that looks for the last provider of a price, on the sorted list.
use archoncloud_go.Base.{
  ℕ, zero, suc, ◌+◌, ◌<◌, ◌≤◌, ◌≡◌, subst, List, [], ◌∷◌, length, take, drop, get_elem?, ltb,
  ltb→lt, Bool-cases, inl, inr, All, some, arith,
}
use archoncloud_go.Base.Int.{to_u64}
use archoncloud_go.Common.Profiles.{SpProfile}
use archoncloud_go.Upload.Choosing.{last_from}

pub get-All {ℓ κ} :
    {A : Type ℓ} (P : A → Type κ) (xs : List A) (i : ℕ) (y : A)
    → get_elem? xs i ≡ some y
    → All P xs
    → P y
get-All P [] i y e h = absurd cc
get-All P (x ∷ xs) zero y e (p, h) = let same : x ≡ y = cc in subst P same p
get-All P (x ∷ xs) (suc i) y e (p, h) = get-All P xs i y e h

-- A list in ascending order of a key.
abbrev pub IsSorted : (SpProfile → ℕ) → List SpProfile → Type 0
IsSorted key [] = Unit
IsSorted key (x ∷ xs) = All (λ (y : SpProfile). key x ≤ key y) xs × IsSorted key xs

pub before-le :
    (key : SpProfile → ℕ) (xs : List SpProfile) (n : ℕ) (y : SpProfile)
    → IsSorted key xs
    → get_elem? xs n ≡ some y
    → All (λ (x : SpProfile). key x ≤ key y) (take n xs)
before-le key xs zero y s e = tt
before-le key [] (suc n) y s e = tt
before-le key (x ∷ xs) (suc n) y (h, s) e =
    (get-All (λ (z : SpProfile). key x ≤ key z) xs n y e h, before-le key xs n y s e)

pub All-take_both {ℓ κ} :
    {A : Type ℓ} (P : A → Type κ) (n m t : ℕ) (xs : List A)
    → t ≡ n + m
    → All P (take n xs)
    → All P (take m (drop n xs))
    → All P (take t xs)
All-take_both P zero m t xs e h k =
    let same : m ≡ t = omega arith in subst (λ t. All P (take t xs)) same k
All-take_both P (suc n) m zero xs e h k = tt
All-take_both P (suc n) m (suc t) [] e h k = tt
All-take_both P (suc n) m (suc t) (x ∷ xs) e (p, h) k =
    (p, All-take_both P n m t xs (omega arith) h k)

-- The loop stops before the end, and what it has passed is not above the price.
pub last_from-lem :
    (high last : ℕ) (sp : SpProfile) (sps : List SpProfile)
    → (m : ℕ) × (last_from high last (sp ∷ sps) ≡ last + m)
      × (m ≤ length sps)
      × All (λ (x : SpProfile). to_u64 x.min_ask_price ≤ high) (take m (sp ∷ sps))
      × (0 < length sps → to_u64 sp.min_ask_price ≤ high → 0 < m)
unfolding last_from
last_from-lem high last sp [] = (0, omega arith, omega arith, tt, λ l h. l)
last_from-lem high last sp (sp' ∷ sps) = elim (Bool-cases (ltb high (to_u64 sp.min_ask_price))) [
  | inl e ↦ (
    0,
    rw e (omega arith),
    omega arith,
    tt,
    λ l h. absurd (let lt = ltb→lt high (to_u64 sp.min_ask_price) e in omega arith),
  )
  | inr e ↦
      let (m, k, le, passed, one) = last_from-lem high (suc last) sp' sps in
      let under : to_u64 sp.min_ask_price ≤ high = ground arith in
      (suc m, rw e (omega (arith, k)), omega arith, (under, passed), λ l h. omega arith)
]
