-- ===== src/Tests/Choices.antt =====
-- The theorem on the choice of storage providers, on concrete inputs.
use archoncloud_go.Base.{
  ℕ, zero, suc, ◌<◌, ◌≤◌, ◌≡◌, refl, List, [], ◌∷◌, length, take, get_elem?, ltb, ltb→lt,
  Bool-cases, inl, inr, Bool, if◌then◌else◌, All, All-weaken, some, ok, arith,
}
use mathlib.Core.List.{Permᴰ}
use mathlib.Core.List.Permᴰ
use archoncloud_go.Base.Int.{pos, to_u64}
use archoncloud_go.Common.Profiles.{SpProfile}
use archoncloud_go.Upload.Choosing.{rounded, get_upload_sps, contains, insert_new}
use archoncloud_go.Upload.Choosing.Loop.{IsSorted}
use archoncloud_go.Upload.Choosing.Drawing.{seen}
use archoncloud_go.Upload.Choosing.Picks.{IsSort, IsChoice, get_upload_sps-IsChoice}

-- Sorting by insertion.
abbrev insert : (SpProfile → SpProfile → Bool) → SpProfile → List SpProfile → List SpProfile
insert less x [] = x ∷ []
insert less x (y ∷ ys) = let rest = insert less x ys in if less y x then y ∷ rest else x ∷ y ∷ ys

abbrev sorting : (SpProfile → SpProfile → Bool) → List SpProfile → List SpProfile
sorting less [] = []
sorting less (x ∷ xs) = insert less x (sorting less xs)

insert-Perm :
    (less : SpProfile → SpProfile → Bool) (x : SpProfile) (ys : List SpProfile)
    → Permᴰ (x ∷ ys) (insert less x ys)
insert-Perm less x [] = Permᴰ.refl (x ∷ [])
insert-Perm less x (y ∷ ys) = elim (Bool-cases (less y x)) [
  | inl e ↦ rw e (Permᴰ.trans (Permᴰ.swap refl refl) (Permᴰ.cons refl (insert-Perm less x ys)))
  | inr e ↦ rw e (Permᴰ.refl (x ∷ y ∷ ys))
]

sorting-Perm :
    (less : SpProfile → SpProfile → Bool) (xs : List SpProfile) → Permᴰ xs (sorting less xs)
sorting-Perm less [] = Permᴰ.refl []
sorting-Perm less (x ∷ xs) =
    Permᴰ.trans (Permᴰ.cons refl (sorting-Perm less xs)) (insert-Perm less x (sorting less xs))

All-insert :
    (P : SpProfile → Type 0) (less : SpProfile → SpProfile → Bool) (x : SpProfile)
    (ys : List SpProfile)
    → P x
    → All P ys
    → All P (insert less x ys)
All-insert P less x [] p h = (p, tt)
All-insert P less x (y ∷ ys) p (q, h) = elim (Bool-cases (less y x)) [
  | inl e ↦ rw e (q, All-insert P less x ys p h)
  | inr e ↦ rw e (p, (q, h))
]

insert-IsSorted :
    (key : SpProfile → ℕ) (x : SpProfile) (ys : List SpProfile)
    → IsSorted key ys
    → IsSorted key (insert (λ a b. ltb (key a) (key b)) x ys)
insert-IsSorted key x [] s = (tt, tt)
insert-IsSorted key x (y ∷ ys) (h, s) = elim (Bool-cases (ltb (key y) (key x))) [
  | inl e ↦
      let lt = ltb→lt (key y) (key x) e in
      rw e (
        All-insert (λ z. key y ≤ key z) (λ a b. ltb (key a) (key b)) x ys (omega arith) h,
        insert-IsSorted key x ys s,
      )
  | inr e ↦
      let le : key x ≤ key y = ground arith in
      rw e ((le, All-weaken ys (λ z k. omega arith) h), (h, s))
]

sorting-IsSorted :
    (key : SpProfile → ℕ) (xs : List SpProfile)
    → IsSorted key (sorting (λ a b. ltb (key a) (key b)) xs)
sorting-IsSorted key [] = tt
sorting-IsSorted key (x ∷ xs) =
    insert-IsSorted key x (sorting (λ a b. ltb (key a) (key b)) xs) (sorting-IsSorted key xs)

sorting-IsSort : IsSort sorting
sorting-IsSort = record { keeps = sorting-Perm; ascends = sorting-IsSorted }

abbrev asking : ℕ → SpProfile
asking price = record {
  urls = record { host = []; http_port = []; https_port = [] };
  address = price ∷ [];
  min_ask_price = pos price;
}

abbrev offers : List SpProfile
offers = asking 25 ∷ asking 11 ∷ asking 19 ∷ []

-- Each number below `n`, the largest first.
abbrev countdown : ℕ → List ℕ
countdown zero = []
countdown (suc n) = n ∷ countdown n

countdown-below : (m n : ℕ) → n ≤ m → All (λ j. j < m) (countdown n)
countdown-below m zero h = tt
countdown-below m (suc n) h = (omega arith, countdown-below m n (omega arith))

seen-grows : (m draws : List ℕ) → length m ≤ length (seen m draws)
unfolding insert_new
seen-grows m [] = omega arith
seen-grows m (d ∷ draws) = elim (Bool-cases (contains d m)) [
  | inl e ↦ rw e (seen-grows m draws)
  | inr e ↦ rw e (let more = seen-grows (d ∷ m) draws in omega arith)
]

some_seen : (count : ℕ) → 1 ≤ count → 1 ≤ length (seen [] (countdown count))
unfolding insert_new
some_seen zero h = absurd (omega arith)
some_seen (suc n) h = seen-grows (n ∷ []) (countdown n)

get_upload_sps-IsChoice_example :
    (y : SpProfile) × (last : ℕ) × (chosen : List SpProfile) × (get_elem?
        (sorting (λ a b. ltb (rounded 10 a) (rounded 10 b)) offers)
        0
      ≡ some y)
    × (get_upload_sps sorting countdown (λ m. m) 1 10 offers ≡ ok (some chosen))
    × All (λ (x : SpProfile). to_u64 x.min_ask_price ≤ rounded 10 y) chosen
    × IsChoice 1 (take last (sorting (λ a b. ltb (rounded 10 a) (rounded 10 b)) offers)) chosen
get_upload_sps-IsChoice_example =
    get_upload_sps-IsChoice sorting sorting-IsSort countdown
      (λ n. countdown-below n n (omega arith)) (λ m. m) (λ m. Permᴰ.refl m) 0 10 offers
      (omega arith) (omega arith) (omega arith, (omega arith, (omega arith, tt))) some_seen
