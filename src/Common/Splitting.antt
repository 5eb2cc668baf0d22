-- ===== src/Common/Splitting.antt =====
-- Texts that are put together with a separator, against `strings.Split`.
use archoncloud_go.Base.{ℕ, ◌≡◌, refl, [], ◌∷◌, ◌++◌, All, false, ◌==◌, ==_refl}
use archoncloud_go.Common.Bytes.{Bytes}
use archoncloud_go.Common.Profiles.{split}

-- A field with no separator in it.
abbrev pub IsField : ℕ → Bytes → Type 0
IsField sep f = All (λ (b : ℕ). (b == sep) ≡ false) f

pub split-field :
    (sep : ℕ) (f rest : Bytes) → IsField sep f → split sep (f ++ (sep ∷ rest)) ≡ f ∷ split sep rest
unfolding split
split-field sep [] rest h = rw (==_refl sep)
split-field sep (b ∷ f) rest (e, h) = rw (e, split-field sep f rest h)

pub split-last : (sep : ℕ) (f : Bytes) → IsField sep f → split sep f ≡ f ∷ []
unfolding split
split-last sep [] h = refl
split-last sep (b ∷ f) (e, h) = rw (e, split-last sep f h)
