-- ===== src/Base/Members.antt =====
-- Membership in lists, against `All` and `map`.
use mathlib.Core.Path.{◌≡◌, refl, sym, subst}
use mathlib.Core.List.{List, [], ◌∷◌, ◌++◌, map, Memᴰ}
use mathlib.Core.List.Memᴰ
use archoncloud_go.Base.Lists.{All}

pub All-of_mem {ℓ κ} :
    {A : Type ℓ} {P : A → Type κ} (xs : List A) → ((a : A) → Memᴰ a xs → P a) → All P xs
All-of_mem [] f = tt
All-of_mem (x ∷ xs) f = (f x (Memᴰ.head refl), All-of_mem xs (λ a m. f a (Memᴰ.tail m)))

pub mem-of_All {ℓ κ} :
    {A : Type ℓ} (P : A → Type κ) (xs : List A) (a : A) → All P xs → Memᴰ a xs → P a
mem-of_All P [] a h m = absurd (Memᴰ.not-nil m)
mem-of_All P (x ∷ xs) a (p, h) (Memᴰ.head e) = subst P (sym e) p
mem-of_All P (x ∷ xs) a (p, h) (Memᴰ.tail m) = mem-of_All P xs a h m

pub mem-of_map {ℓ κ} :
    {A : Type ℓ} {B : Type κ} (f : A → B) (xs : List A) (b : B)
    → Memᴰ b (map f xs)
    → (a : A) × Memᴰ a xs × (b ≡ f a)
mem-of_map f [] b m = absurd (Memᴰ.not-nil m)
mem-of_map f (x ∷ xs) b (Memᴰ.head e) = (x, Memᴰ.head refl, e)
mem-of_map f (x ∷ xs) b (Memᴰ.tail m) = let (a, k, e) = mem-of_map f xs b m in (a, Memᴰ.tail k, e)

pub All-append {ℓ κ} :
    {A : Type ℓ} (P : A → Type κ) (xs ys : List A) → All P xs → All P ys → All P (xs ++ ys)
All-append P [] ys h k = k
All-append P (x ∷ xs) ys (p, h) k = (p, All-append P xs ys h k)

pub All-both {ℓ κ μ ν} :
    {A : Type ℓ} {P : A → Type κ} {Q : A → Type μ} {R : A → Type ν}
    → ((x : A) → P x → Q x → R x)
    → (xs : List A) → All P xs
    → All Q xs
    → All R xs
All-both f [] h k = tt
All-both f (x ∷ xs) (p, h) (q, k) = (f x p q, All-both f xs h k)

pub All-map {ℓ κ μ} :
    {A : Type ℓ} {B : Type κ} (P : B → Type μ) (f : A → B) (xs : List A)
    → All (λ x. P (f x)) xs
    → All P (map f xs)
All-map P f [] h = tt
All-map P f (x ∷ xs) (p, h) = (p, All-map P f xs h)
