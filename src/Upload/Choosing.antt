-- ===== src/Upload/Choosing.antt =====
-- upload/storageProviders.go: which storage providers an upload takes, with the sorting and the random choice
-- of common/spprofile.go and common/random.go. `sort.Slice`, the random numbers and the order of a range
-- over a map are parameters; the providers of the account are given.
pub mod Loop
pub mod Drawing
pub mod Picks
use archoncloud_go.Base.{
  ℕ, zero, suc, ◌-◌, List, [], ◌∷◌, length, drop, ltb, leb, ◌==◌, ◌||◌, Bool, true, false,
  if◌then◌else◌, Option, none, some, Result, ok, err, panic, ◌>>=◌,
}
use archoncloud_go.Base.Int.{to_u64}
use archoncloud_go.Common.Numbers.{round_up}
use archoncloud_go.Common.Profiles.{SpProfile, keep_only, get_sp}

abbrev pub contains : ℕ → List ℕ → Bool
contains i [] = false
contains i (j ∷ m) = (i == j) || contains i m

-- `m[i] = true`
unfoldable pub insert_new : ℕ → List ℕ → List ℕ
insert_new i m = if contains i m then m else i ∷ m

-- The loop of `RandomRange`, on the random numbers that it draws; `none` if it needs more of them.
unfoldable pub draw_until : ℕ → List ℕ → List ℕ → Option (List ℕ)
unfolding insert_new
draw_until n m [] = if ltb (length m) n then none else some m
draw_until n m (d ∷ draws) =
    let rest = draw_until n (insert_new d m) draws in if ltb (length m) n then rest else some m

abbrev pub picks : List SpProfile → List ℕ → Result (List SpProfile)
unfolding get_sp
picks sps [] = ok []
picks sps (i ∷ rr) = do sp ← get_sp sps i; rest ← picks sps rr; ok (sp ∷ rest)

abbrev pub rounded_or_zero : Result ℕ → ℕ
rounded_or_zero (ok n) = n
rounded_or_zero _ = 0

unfoldable pub rounded : ℕ → SpProfile → ℕ
unfolding round_up
rounded granularity sp = rounded_or_zero (round_up (to_u64 sp.min_ask_price) granularity)

-- The loop from the provider at `last` on: the providers from there.
unfoldable pub last_from : ℕ → ℕ → List SpProfile → ℕ
last_from high last [] = last
last_from high last (sp ∷ []) = last
last_from high last (sp ∷ sp' ∷ sps) =
    let rest = last_from high (suc last) (sp' ∷ sps) in
    if ltb high (to_u64 sp.min_ask_price) then last else rest

module _ (sort_slice : (SpProfile → SpProfile → Bool) → List SpProfile → List SpProfile)
    (draws : ℕ → List ℕ) (range : List ℕ → List ℕ) where
  -- `RoundUp` divides by the granularity.
  unfoldable pub sort_by_min_ask : ℕ → List SpProfile → Result (List SpProfile)
  sort_by_min_ask granularity sps =
      if granularity == 0
      then panic
      else ok (sort_slice (λ a b. ltb (rounded granularity a) (rounded granularity b)) sps)

  abbrev pub picked_of : List SpProfile → Option (List ℕ) → Result (Option (List SpProfile))
  picked_of sps none = ok none
  picked_of sps (some m) = do rest ← picks sps (range m); ok (some rest)

  -- `none` if the random numbers do not suffice.
  unfoldable pub pick_random : ℕ → List SpProfile → Result (Option (List SpProfile))
  unfolding draw_until picks
  pick_random needed sps =
      if ltb (length sps) needed
      then ok (some sps)
      else picked_of sps (draw_until needed [] (draws (length sps)))

  -- More providers than needed; `sps.Get(-1)` panics.
  unfoldable pub choose : ℕ → ℕ → List SpProfile → Result (Option (List SpProfile))
  choose zero granularity sps = panic
  choose (suc n) granularity sps = do
    sorted ← sort_by_min_ask granularity sps
    sp ← get_sp sorted n
    high ← round_up (to_u64 sp.min_ask_price) granularity
    kept ← keep_only (last_from high n (drop n sorted)) sorted
    pick_random (suc n) kept

  unfoldable pub get_upload_sps : ℕ → ℕ → List SpProfile → Result (Option (List SpProfile))
  unfolding choose
  get_upload_sps needed granularity sps =
      let chosen = choose needed granularity sps in
      if ltb needed (length sps) then chosen else ok (some sps)
