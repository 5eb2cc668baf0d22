-- ===== src/Base/Distinct.antt =====
-- Lists whose elements have different keys, and lists in another order.
use mathlib.Core.Path.{◌≡◌, refl, sym, ap, ◌∙◌, subst}
use mathlib.Core.Logic.{◌≢◌}
use mathlib.Core.List.{List, [], ◌∷◌, Permᴰ}
use Prim.Native.Nat.{suc}
use archoncloud_go.Base.Lists.{All, length}

-- No two of the list have the same key.
abbrev pub IsDistinct {ℓ} : {A : Type ℓ} {K : Type 0} → (A → K) → List A → Type 0
IsDistinct key [] = Unit
IsDistinct key (x ∷ xs) = All (λ y. key x ≢ key y) xs × IsDistinct key xs

pub Perm-All {ℓ κ} :
    {A : Type ℓ} (P : A → Type κ) {xs ys : List A} → Permᴰ xs ys → All P xs → All P ys
Perm-All P Permᴰ.nil h = tt
Perm-All P (Permᴰ.cons e p) (h, hs) = (subst P e h, Perm-All P p hs)
Perm-All P (Permᴰ.swap e e') (h, (h', hs)) = (subst P e' h', (subst P e h, hs))
Perm-All P (Permᴰ.trans p q) h = Perm-All P q (Perm-All P p h)

pub Perm-IsDistinct {ℓ} :
    {A : Type ℓ} {K : Type 0} (key : A → K) {xs ys : List A}
    → Permᴰ xs ys
    → IsDistinct key xs
    → IsDistinct key ys
Perm-IsDistinct key Permᴰ.nil d = tt
Perm-IsDistinct {A = A} key (Permᴰ.cons {a} {b} {l₁} {l₂} e p) (h, d) = (
  subst (λ (x : A). All (λ (y : A). key x ≢ key y) l₂) e (Perm-All (λ (y : A). key a ≢ key y) p h),
  Perm-IsDistinct key p d,
)
Perm-IsDistinct key (Permᴰ.swap {a} {b} {a'} {b'} {l} e e') ((n, h), (h', d)) = (
  (λ k. n (ap key e ∙ sym k ∙ sym (ap key e')), subst (λ x. All (λ y. key x ≢ key y) l) e' h'),
  (subst (λ x. All (λ y. key x ≢ key y) l) e h, d),
)
Perm-IsDistinct key (Permᴰ.trans p q) d = Perm-IsDistinct key q (Perm-IsDistinct key p d)

pub Perm-length {ℓ} : {A : Type ℓ} {xs ys : List A} → Permᴰ xs ys → length xs ≡ length ys
Perm-length Permᴰ.nil = refl
Perm-length (Permᴰ.cons e p) = ap suc (Perm-length p)
Perm-length (Permᴰ.swap e e') = refl
Perm-length (Permᴰ.trans p q) = Perm-length p ∙ Perm-length q
