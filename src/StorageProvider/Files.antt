-- ===== src/StorageProvider/Files.antt =====
-- The files of a storage provider, as a list of paths and contents: the package os as far as the
-- handlers use it.
use archoncloud_go.Base.{
  ◌≡◌, ◌≢◌, refl, sym, ◌∙◌, subst, List, [], ◌∷◌, bytes_eq, bytes_eq→eq, Bool-cases, Bool, true,
  false, if◌then◌else◌, Option, none, some, inl, inr,
}
use archoncloud_go.Common.Bytes.{Bytes}

pub record File : Type 0 where
  pub path : Bytes
  pub content : Bytes

abbrev pub read_file : Bytes → List File → Option Bytes
read_file p [] = none
read_file p (f ∷ fs) =
    let rest = read_file p fs in if bytes_eq f.path p then some f.content else rest

abbrev pub remove_file : Bytes → List File → List File
remove_file p [] = []
remove_file p (f ∷ fs) = let rest = remove_file p fs in if bytes_eq f.path p then rest else f ∷ rest

-- A file that is there is truncated first.
abbrev pub write_file : Bytes → Bytes → List File → List File
write_file p content fs = record { path = p; content = content } ∷ remove_file p fs

abbrev pub is_some : Option Bytes → Bool
is_some none = false
is_some (some c) = true

abbrev pub file_exists : Bytes → List File → Bool
file_exists p fs = is_some (read_file p fs)

pub read-remove : (p : Bytes) (fs : List File) → read_file p (remove_file p fs) ≡ none
read-remove p [] = refl
read-remove p (f ∷ fs) = elim (Bool-cases (bytes_eq f.path p)) [
  | inl e ↦ rw e (read-remove p fs)
  | inr e ↦ rw (e, e) (read-remove p fs)
]

-- Another file is not touched.
pub read-remove_other :
    (p q : Bytes) (fs : List File) → p ≢ q → read_file p (remove_file q fs) ≡ read_file p fs
read-remove_other p q [] n = refl
read-remove_other p q (f ∷ fs) n = elim (Bool-cases (bytes_eq f.path q)) [
  | inl e ↦ elim (Bool-cases (bytes_eq f.path p)) [
    | inl e' ↦ absurd (n (sym (bytes_eq→eq f.path p e') ∙ bytes_eq→eq f.path q e))
    | inr e' ↦ rw (e, e') (read-remove_other p q fs n)
  ]
  | inr e ↦ elim (Bool-cases (bytes_eq f.path p)) [
    | inl e' ↦ rw (e, e')
    | inr e' ↦ rw (e, e') (read-remove_other p q fs n)
  ]
]

-- A file that is there and one that is not are two files.
pub absent-other :
    (p q : Bytes) (fs : List File) (content : Bytes)
    → read_file p fs ≡ some content
    → file_exists q fs ≡ false
    → p ≢ q
absent-other p q fs content there absent same =
    let also : is_some (read_file p fs) ≡ false =
      subst (λ x. is_some (read_file x fs) ≡ false) (sym same) absent in
    let wrong : true ≡ false = subst (λ (c : Option Bytes). is_some c ≡ false) there also in cc
