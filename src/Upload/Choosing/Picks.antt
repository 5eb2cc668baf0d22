-- ===== src/Upload/Choosing/Picks.antt =====
-- upload/storageProviders.go: what is chosen if there are more providers than needed.
use archoncloud_go.Base.{
  IsDistinct, Perm-All, Perm-IsDistinct, Perm-length, ℕ, zero, suc, ◌+◌, ◌^◌, ◌<◌, ◌≤◌, ◌≡◌, refl,
  sym, ap, ◌∙◌, subst, List, [], ◌∷◌, length, length-take, map, take, drop, get_elem?, ltb, le→ltb,
  lt→ltb, ne→==, Bool, false, All, All-both, Option, some, Result, ok, arith,
}
use mathlib.Core.List.{Permᴰ}
use archoncloud_go.Base.Int.{to_u64}
use archoncloud_go.Base.Arith.{ceil-bounds}
use archoncloud_go.Common.Numbers.{round_up}
use archoncloud_go.Common.Numbers.Rounding.{round_up-ok}
use archoncloud_go.Common.Profiles.{SpProfile, keep_only, get_sp}
use archoncloud_go.Upload.Choosing.{
  rounded, last_from, sort_by_min_ask, pick_random, choose, get_upload_sps,
}
use archoncloud_go.Upload.Choosing.Loop.{get-All, IsSorted, before-le, All-take_both, last_from-lem}
use archoncloud_go.Upload.Choosing.Drawing.{seen, draw_until-ok, picks-ok}

-- What is documented of `sort.Slice`: the same elements, in ascending order if the test compares a key.
pub record IsSort (sort_slice : (SpProfile → SpProfile → Bool) → List SpProfile → List SpProfile)
    : Type 0 where
  pub keeps :
      (less : SpProfile → SpProfile → Bool) (sps : List SpProfile) → Permᴰ sps (sort_slice less sps)
  pub ascends :
      (key : SpProfile → ℕ) (sps : List SpProfile)
      → IsSorted key (sort_slice (λ a b. ltb (key a) (key b)) sps)

-- A price that is not negative, and whose rounding does not overflow.
abbrev pub IsPriced : ℕ → SpProfile → Type 0
IsPriced g sp = to_u64 sp.min_ask_price + g < 2 ^ 64

rounded-ok :
    (g : ℕ) (sp : SpProfile)
    → 0 < g
    → IsPriced g sp
    → (round_up (to_u64 sp.min_ask_price) g ≡ ok (rounded g sp))
      × (to_u64 sp.min_ask_price ≤ rounded g sp)
unfolding rounded
rounded-ok g sp h priced =
    let e = round_up-ok (to_u64 sp.min_ask_price) g h priced in
    rw e (refl, (ceil-bounds (to_u64 sp.min_ask_price) g h).0)

drop-get :
    (n : ℕ) (sps : List SpProfile)
    → n < length sps
    → (y : SpProfile) × (ys : List SpProfile) × (get_elem? sps n ≡ some y)
      × (drop n sps ≡ y ∷ ys)
      × (length sps ≡ n + suc (length ys))
drop-get n [] h = absurd (omega arith)
drop-get zero (x ∷ sps) h = (x, sps, refl, refl, omega arith)
drop-get (suc n) (x ∷ sps) h =
    let (y, ys, e, k, l) = drop-get n sps (omega arith) in (y, ys, e, k, omega arith)

some-same : (a b : SpProfile) → some a ≡ some b → a ≡ b
some-same a b e = cc

All-take {ℓ κ} : {A : Type ℓ} (P : A → Type κ) (n : ℕ) (xs : List A) → All P xs → All P (take n xs)
All-take P zero xs h = tt
All-take P (suc n) [] h = tt
All-take P (suc n) (x ∷ xs) (p, h) = (p, All-take P n xs h)

-- The providers that the loop keeps: at least as many as needed, none above the price.
record IsKept (sorted : List SpProfile) (n high : ℕ) : Type 0 where
  last : ℕ
  found : last_from high n (drop n sorted) ≡ last
  enough : n < last
  inside : last < length sorted
  cheap : All (λ (x : SpProfile). to_u64 x.min_ask_price ≤ high) (take last sorted)

keeps-cheap :
    (g n : ℕ) (sorted : List SpProfile) (y : SpProfile)
    → 0 < g
    → suc n < length sorted
    → All (IsPriced g) sorted
    → IsSorted (rounded g) sorted
    → get_elem? sorted n ≡ some y
    → IsKept sorted n (rounded g y)
keeps-cheap g n sorted y h lt priced ascending e =
    let (z, ys, ez, dz, l) = drop-get n sorted (omega arith) in
    let same : z ≡ y = some-same z y (sym ez ∙ e) in
    let dropped : drop n sorted ≡ y ∷ ys = dz ∙ ap (λ (x : SpProfile). x ∷ ys) same in
    let (re, rle) = rounded-ok g y h (get-All (IsPriced g) sorted n y e priced) in
    let (m, lm, le, passed, one) = last_from-lem (rounded g y) n y ys in
    let P : SpProfile → Type 0 = λ x. to_u64 x.min_ask_price ≤ rounded g y in
    let before : All P (take n sorted) =
      All-both (λ (x : SpProfile) a p. let b = (rounded-ok g x h p).1 in omega arith)
        (take n sorted) (before-le (rounded g) sorted n y ascending e)
        (All-take (IsPriced g) n sorted priced) in
    let positive = one (omega arith) rle in
    record {
      last = n + m;
      found = ap (λ (l : List SpProfile). last_from (rounded g y) n l) dropped ∙ lm;
      enough = omega arith;
      inside = omega arith;
      cheap =
          All-take_both P n m (n + m) sorted refl before
            (subst (λ (l : List SpProfile). All P (take m l)) (sym dropped) passed);
    }

-- What is chosen of a list: providers at distinct places of it.
abbrev pub IsChoice : ℕ → List SpProfile → List SpProfile → Type 0
IsChoice needed sps chosen =
    (ixs : List ℕ) × (length ixs ≡ needed)
    × IsDistinct (λ (j : ℕ). j) ixs
    × (map some chosen ≡ map (get_elem? sps) ixs)

module _ (sort_slice : (SpProfile → SpProfile → Bool) → List SpProfile → List SpProfile)
    (is_sort : IsSort sort_slice) (draws : ℕ → List ℕ)
    (below : (n : ℕ) → All (λ j. j < n) (draws n)) (range : List ℕ → List ℕ)
    (ranges : (m : List ℕ) → Permᴰ m (range m)) where
  pick_random-ok :
      (P : SpProfile → Type 0) (needed : ℕ) (kept : List SpProfile)
      → needed ≤ length kept
      → needed ≤ length (seen [] (draws (length kept)))
      → All P kept
      → (chosen : List SpProfile) × (pick_random sort_slice draws range needed kept
          ≡ ok (some chosen))
        × All P chosen
        × IsChoice needed kept chosen
  unfolding pick_random
  pick_random-ok P needed kept le many all =
      let (m, e, l, d, h) =
        draw_until-ok (length kept) needed [] (draws (length kept)) (below (length kept)) tt tt
          (omega arith) many in
      let p = ranges m in
      let (chosen, eq, good, same) =
        picks-ok P kept (range m) all (Perm-All (λ j. j < length kept) p h) in
      (
        chosen,
        rw (le→ltb (length kept) needed le, e, eq),
        good,
        (range m, sym (Perm-length p) ∙ l, Perm-IsDistinct (λ (j : ℕ). j) p d, same),
      )

  -- The steps of the choice, one after the other.
  choose-steps :
      (n g high last : ℕ) (sps sorted : List SpProfile) (y : SpProfile)
      (r : Result (Option (List SpProfile)))
      → sort_by_min_ask sort_slice draws range g sps ≡ ok sorted
      → get_elem? sorted n ≡ some y
      → round_up (to_u64 y.min_ask_price) g ≡ ok high
      → last_from high n (drop n sorted) ≡ last
      → ltb (length sorted) last ≡ false
      → pick_random sort_slice draws range (suc n) (take last sorted) ≡ r
      → choose sort_slice draws range (suc n) g sps ≡ r
  unfolding choose get_sp keep_only
  choose-steps n g high last sps sorted y r a b c d e f = rw (a, b, c, d, e) f

  -- If there are more providers than needed, one at least is, prices round up without overflow to a
  -- positive granularity, and the random numbers drawn have enough distinct ones: `GetUploadSps` gives
  -- as many providers as needed, at distinct places of the front of the sorted list, and none asks for
  -- more than the price that the last of the needed cheapest ones rounds up to.
  pub get_upload_sps-IsChoice :
      (n g : ℕ) (sps : List SpProfile)
      → 0 < g
      → suc n < length sps
      → All (IsPriced g) sps
      → ((count : ℕ) → suc n ≤ count → suc n ≤ length (seen [] (draws count)))
      → (y : SpProfile) × (last : ℕ) × (chosen : List SpProfile) × (get_elem?
            (sort_slice (λ a b. ltb (rounded g a) (rounded g b)) sps)
            n
          ≡ some y)
        × (get_upload_sps sort_slice draws range (suc n) g sps ≡ ok (some chosen))
        × All (λ (x : SpProfile). to_u64 x.min_ask_price ≤ rounded g y) chosen
        × IsChoice
            (suc n)
            (take last (sort_slice (λ a b. ltb (rounded g a) (rounded g b)) sps))
            chosen
  unfolding get_upload_sps sort_by_min_ask
  get_upload_sps-IsChoice n g sps positive more priced many =
      let sorted = sort_slice (λ a b. ltb (rounded g a) (rounded g b)) sps in
      let p = is_sort.keeps (λ a b. ltb (rounded g a) (rounded g b)) sps in
      let count = Perm-length p in
      let priced' = Perm-All (IsPriced g) p priced in
      let (y, ys, e, dropped, l) = drop-get n sorted (omega arith) in
      let k =
        keeps-cheap g n sorted y positive (omega arith) priced' (is_sort.ascends (rounded g) sps)
          e in
      let high = rounded-ok g y positive (get-All (IsPriced g) sorted n y e priced') in
      let long : length (take k.last sorted) ≡ k.last =
        omega (arith, length-take k.last sorted, k.inside) in
      let (chosen, eq, good, choice) =
        pick_random-ok (λ (x : SpProfile). to_u64 x.min_ask_price ≤ rounded g y) (suc n)
          (take k.last sorted) (omega (arith, long, k.enough))
          (many (length (take k.last sorted)) (omega (arith, long, k.enough))) k.cheap in
      let fits = le→ltb (length sorted) k.last (omega (arith, k.inside)) in
      (
        y,
        k.last,
        chosen,
        e,
        rw (lt→ltb (suc n) (length sps) more) (
            choose-steps n g (rounded g y) k.last sps sorted y (ok (some chosen))
              (rw (ne→== g 0 (λ z. absurd (omega arith)))) e high.0 k.found fits eq),
        good,
        choice,
      )
