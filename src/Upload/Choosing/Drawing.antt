-- ===== src/Upload/Choosing/Drawing.antt =====
-- common/random.go: the distinct numbers that are drawn, and the providers at their places.
use archoncloud_go.Base.{
  IsDistinct, ℕ, zero, suc, ◌<◌, ◌≤◌, ◌≡◌, ◌≢◌, refl, sym, ◌∙◌, List, [], ◌∷◌, length, map,
  get_elem?, ltb, ltb→lt, le→ltb, ◌==◌, ==_iff, Bool-cases, inl, inr, true, false, All, some, ok,
  arith,
}
use archoncloud_go.Common.Profiles.{SpProfile, get_sp}
use archoncloud_go.Upload.Choosing.{contains, insert_new, draw_until, picks}
use archoncloud_go.Upload.Choosing.Loop.{get-All}

-- The numbers drawn, each once.
abbrev pub seen : List ℕ → List ℕ → List ℕ
seen m [] = m
seen m (d ∷ draws) = seen (insert_new d m) draws

absent : (i : ℕ) (m : List ℕ) → contains i m ≡ false → All (λ j. i ≢ j) m
absent i [] e = tt
absent i (j ∷ m) e = elim (Bool-cases (i == j)) [
  | inl k ↦ absurd (let wrong : true ≡ false = (rw k at e) in cc)
  | inr k ↦ (
    (λ same.
        let one : (i == j) ≡ true = (==_iff i j).1 same in
        let wrong : true ≡ false = sym one ∙ k in cc),
    absent i m (rw k at e),
  )
]

insert_new-lem :
    (upper i : ℕ) (m : List ℕ)
    → i < upper
    → All (λ j. j < upper) m
    → IsDistinct (λ (j : ℕ). j) m
    → IsDistinct (λ (j : ℕ). j) (insert_new i m)
      × All (λ j. j < upper) (insert_new i m)
      × (length (insert_new i m) ≤ suc (length m))
      × (length m ≤ length (insert_new i m))
unfolding insert_new
insert_new-lem upper i m lt h d = elim (Bool-cases (contains i m)) [
  | inl e ↦ rw e (d, h, omega arith, omega arith)
  | inr e ↦ rw e ((absent i m e, d), (lt, h), omega arith, omega arith)
]

-- If the numbers drawn have as many distinct ones as are needed, the loop ends with that many.
pub draw_until-ok :
    (upper n : ℕ) (m draws : List ℕ)
    → All (λ j. j < upper) draws
    → All (λ j. j < upper) m
    → IsDistinct (λ (j : ℕ). j) m
    → length m ≤ n
    → n ≤ length (seen m draws)
    → (m' : List ℕ) × (draw_until n m draws ≡ some m')
      × (length m' ≡ n)
      × IsDistinct (λ (j : ℕ). j) m'
      × All (λ j. j < upper) m'
unfolding draw_until
draw_until-ok upper n m [] hd hm d le enough =
    (m, rw (le→ltb (length m) n enough), omega arith, d, hm)
draw_until-ok upper n m (x ∷ draws) (lt, hd) hm d le enough = elim (Bool-cases (ltb (length m) n)) [
  | inr e ↦ (m, rw e, ground arith, d, hm)
  | inl e ↦
      let (d', hm', le', ge') = insert_new-lem upper x m lt hm d in
      let more = ltb→lt (length m) n e in
      let (m', k, l, d'', h'') =
        draw_until-ok upper n (insert_new x m) draws hd hm' d' (omega arith) enough in
      (m', rw (e, k), l, d'', h'')
]

at_index :
    (sps : List SpProfile) (i : ℕ) → i < length sps → (sp : SpProfile) × (get_elem? sps i ≡ some sp)
at_index [] i lt = absurd (omega arith)
at_index (sp ∷ sps) zero lt = (sp, refl)
at_index (sp ∷ sps) (suc i) lt = at_index sps i (omega arith)

-- Each pick is the provider at its number, and has what all have.
pub picks-ok :
    (P : SpProfile → Type 0) (sps : List SpProfile) (rr : List ℕ)
    → All P sps
    → All (λ j. j < length sps) rr
    → (chosen : List SpProfile) × (picks sps rr ≡ ok chosen)
      × All P chosen
      × (map some chosen ≡ map (get_elem? sps) rr)
unfolding get_sp
picks-ok P sps [] h k = ([], refl, tt, refl)
picks-ok P sps (i ∷ rr) h (lt, k) =
    let (sp, e) = at_index sps i lt in
    let (chosen, eq, all, same) = picks-ok P sps rr h k in
    (sp ∷ chosen, rw (e, eq), (get-All P sps i sp e h, all), rw (e, same))
