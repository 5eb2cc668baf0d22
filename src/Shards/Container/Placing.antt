-- ===== src/Shards/Container/Placing.antt =====
-- What the callback of `Encode` leaves in a container that was empty.
use archoncloud_go.Base.{
  ℕ, suc, ◌+◌, ◌≤◌, ◌<◌, ◌≡◌, refl, sym, ap, ◌∙◌, List, [], ◌∷◌, ◌++◌, length, set, replicate,
  length-append, append_assoc, lt→ltb, ok, Result, arith, Option, none, some,
}
use archoncloud_go.Common.Bytes.{Bytes}
use archoncloud_go.Shards.Erasure.{numbered}
use archoncloud_go.Shards.Shard.{Shard}
use archoncloud_go.Shards.Container.{place}

-- Pieces under their headers, numbered from `i` on.
abbrev pub shards_from : (ℕ → Bytes) → ℕ → List Bytes → List (Option Shard)
shards_from header i [] = []
shards_from header i (p ∷ ps) =
    some (record { hdr = header i; content = p }) ∷ shards_from header (suc i) ps

set-middle {ℓ} :
    {A : Type ℓ} (front : List A) (a b : A) (rest : List A)
    → set (front ++ a ∷ rest) (length front) b ≡ front ++ b ∷ rest
set-middle [] a b rest = refl
set-middle (x ∷ front) a b rest = ap (λ (l : List _). x ∷ l) (set-middle front a b rest)

-- Every share finds its place, in order.
pub place-numbered :
    (header_for : ℕ → Result Bytes) (header : ℕ → Bytes) (m : ℕ)
    (made : (j : ℕ) → j < m → header_for j ≡ ok (header j)) (ps : List Bytes)
    (front : List (Option Shard)) (i : ℕ)
    → length front ≡ i
    → i + length ps ≤ m
    → place header_for (numbered i ps) (front ++ replicate (length ps) none)
      ≡ ok (front ++ shards_from header i ps)
unfolding place
place-numbered header_for header m made [] front i l h = refl
place-numbered header_for header m made (p ∷ ps) front i l h =
    let sh : Option Shard = some (record { hdr = header i; content = p }) in
    let rest : List (Option Shard) = replicate (length ps) none in
    let inside =
      lt→ltb i (length (front ++ none ∷ rest)) (omega (arith, length-append front (none ∷ rest))) in
    let stored : set (front ++ none ∷ rest) i sh ≡ (front ++ sh ∷ []) ++ rest =
      ap (λ (n : ℕ). set (front ++ none ∷ rest) n sh) (sym l)
      ∙ set-middle front none sh rest
      ∙ sym (append_assoc front (sh ∷ []) rest) in
    rw (made i (omega arith), inside, stored)
      (place-numbered header_for header m made ps (front ++ sh ∷ []) (suc i)
          (omega (arith, length-append front (sh ∷ []))) (omega arith)
        ∙ ap ok (append_assoc front (sh ∷ []) (shards_from header (suc i) ps)))

-- If the callback makes the header `header j` for every number j below the number of pieces, then
-- shares numbered from 0, stored into as many nil shards, give exactly the pieces under their
-- headers, in order.
pub place-into_empty :
    (header_for : ℕ → Result Bytes) (header : ℕ → Bytes) (ps : List Bytes)
    → ((j : ℕ) → j < length ps → header_for j ≡ ok (header j))
    → place header_for (numbered 0 ps) (replicate (length ps) none) ≡ ok (shards_from header 0 ps)
place-into_empty header_for header ps made =
    place-numbered header_for header (length ps) made ps [] 0 refl (omega arith)
