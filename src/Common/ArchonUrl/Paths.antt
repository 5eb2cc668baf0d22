-- ===== src/Common/ArchonUrl/Paths.antt =====
-- The index of a shard in the path under which it is stored.
use archoncloud_go.Base.{
  ℕ, zero, suc, ◌+◌, ◌-◌, ◌*◌, ◌/◌, ◌%◌, ◌≤◌, ◌<◌, ◌≡◌, refl, sym, List, [], ◌∷◌, ◌++◌,
  append_assoc, length, length-append, ◌^◌, true, false, ◌==◌, ==_refl, ne→==, Bool-cases, lt→ltb,
  le→leb, ltb, ltb→lt, some, ok, err, not_a_shard_path, arith, inl, inr, All, All-append,
}
use archoncloud_go.Base.Int.{pos, negsuc}
use archoncloud_go.Common.Bytes.{Bytes}
use archoncloud_go.Common.Profiles.{split, into_first}
use archoncloud_go.Common.ArchonUrl.{
  ArchonUrl, is_hash, is_whole_file, digits, decimal, atoi_from, shard_path, dot, slash, atoi,
  atoi_digits, shard_file_suffix, trim_left, trim_right, hash_file_suffix, last_two,
  index_from_shard_path,
}

into_first-append :
    (b : ℕ) (xs ys : List Bytes)
    → (c : Bytes) (cs : List Bytes) → xs ≡ c ∷ cs
    → into_first b (xs ++ ys) ≡ into_first b xs ++ ys
into_first-append b xs ys c cs e = rw e

split-cons : (sep : ℕ) (f : Bytes) → (c : Bytes) × (cs : List Bytes) × (split sep f ≡ c ∷ cs)
unfolding split
split-cons sep [] = ([], [], refl)
split-cons sep (b ∷ f) = elim (Bool-cases (b == sep)) [
  | inl e ↦ ([], split sep f, rw e)
  | inr e ↦ let (c, cs, k) = split-cons sep f in (b ∷ c, cs, rw (e, k))
]

-- Parts of a text that is put together with a separator.
split-append :
    (sep : ℕ) (f rest : Bytes) → split sep (f ++ (sep ∷ rest)) ≡ split sep f ++ split sep rest
unfolding split
split-append sep [] rest = rw (==_refl sep)
split-append sep (b ∷ f) rest = elim (Bool-cases (b == sep)) [
  | inl e ↦ rw (e, split-append sep f rest)
  | inr e ↦ let (c, cs, k) = split-cons sep f in rw (e, split-append sep f rest, k)
]

last_two-append :
    (ps : List Bytes) (p q r : Bytes) → last_two ((p ∷ ps) ++ (q ∷ r ∷ [])) ≡ some (q, r)
last_two-append [] p q r = refl
last_two-append (a ∷ []) p q r = refl
last_two-append (a ∷ b ∷ []) p q r = refl
last_two-append (a ∷ b ∷ c ∷ ps) p q r = last_two-append (b ∷ c ∷ ps) a q r

abbrev pub IsDigit : ℕ → Type 0
IsDigit b = (48 ≤ b) × (b ≤ 57)

pub digits-IsDigit : (fuel n : ℕ) → All IsDigit (digits fuel n)
digits-IsDigit zero n = tt
digits-IsDigit (suc fuel) n = elim (Bool-cases (ltb n 10)) [
  | inl e ↦ let lt = ltb→lt n 10 e in rw e ((omega arith, omega arith), tt)
  | inr e ↦ rw e (
      All-append IsDigit (digits fuel (n / 10)) _ (digits-IsDigit fuel (n / 10))
        ((omega arith, omega arith), tt))
]

split-digits : (f : Bytes) → All IsDigit f → split dot f ≡ f ∷ []
unfolding split
split-digits [] h = refl
split-digits (b ∷ f) ((lo, hi), h) = rw (ne→== b 46 (λ e. absurd (omega arith)), split-digits f h)

atoi-append :
    (xs ys : Bytes) (acc m : ℕ)
    → All IsDigit xs
    → atoi_from acc xs ≡ ok m
    → atoi_from acc (xs ++ ys) ≡ atoi_from m ys
atoi-append [] ys acc m h e = let same : acc ≡ m = cc in rw same
atoi-append (b ∷ xs) ys acc m ((lo, hi), h) e =
    let a = le→leb 48 b lo in
    let z = le→leb b 57 hi in
    rw (a, z) (atoi-append xs ys (acc * 10 + (b - 48)) m h (rw (a, z) at e))

atoi-digits : (fuel n : ℕ) → n < fuel → atoi_from 0 (digits fuel n) ≡ ok n
atoi-digits zero n h = absurd (omega arith)
atoi-digits (suc fuel) n h = elim (Bool-cases (ltb n 10)) [
  | inl e ↦
      let lt = ltb→lt n 10 e in
      let a = le→leb 48 (48 + n) (omega arith) in
      let z = le→leb (48 + n) 57 (omega arith) in
      let v : 0 * 10 + (48 + n - 48) ≡ n = omega arith in rw (e, a, z, v)
  | inr e ↦
      let front = digits fuel (n / 10) in
      let ge : 10 ≤ n = ground arith in
      let rec = atoi-digits fuel (n / 10) (omega arith) in
      let a = le→leb 48 (48 + n % 10) (omega arith) in
      let z = le→leb (48 + n % 10) 57 (omega arith) in
      let v : n / 10 * 10 + (48 + n % 10 - 48) ≡ n = omega arith in
      rw (
        e,
        atoi-append front ((48 + n % 10) ∷ []) 0 (n / 10) (digits-IsDigit fuel (n / 10)) rec,
        a,
        z,
        v,
      )
]

-- A text of digits that gives a number is read by `Atoi` as that number.
atoi-of_digits :
    (f : Bytes) (n : ℕ) → All IsDigit f → atoi_digits f ≡ ok n → n < 2 ^ 63 → atoi f ≡ ok (pos n)
unfolding atoi
atoi-of_digits [] n h e lt = cc
atoi-of_digits (b ∷ f) n ((lo, hi), h) e lt = rw (
  ne→== b 43 (λ e. absurd (omega arith)),
  ne→== b 45 (λ e. absurd (omega arith)),
  e,
  lt→ltb n (2 ^ 63) lt,
)

cons-of_atoi : (f : Bytes) (n : ℕ) → 0 < length f → atoi_from 0 f ≡ ok n → atoi_digits f ≡ ok n
cons-of_atoi [] n h e = absurd (omega arith)
cons-of_atoi (b ∷ f) n h e = e

pub length-digits : (fuel n : ℕ) → 0 < length (digits (suc fuel) n)
length-digits fuel n = elim (Bool-cases (ltb n 10)) [
  | inl e ↦ rw e (omega arith)
  | inr e ↦ rw e (omega (arith, length-append (digits fuel (n / 10)) ((48 + n % 10) ∷ [])))
]

pub length-decimal : (n : ℕ) → 0 < length (decimal (pos n))
unfolding decimal
length-decimal n = length-digits n n

pub atoi-decimal : (i : ℕ) → i < 2 ^ 63 → atoi (decimal (pos i)) ≡ ok (pos i)
unfolding decimal
atoi-decimal i h =
    let text = digits (suc i) i in
    atoi-of_digits text i (digits-IsDigit (suc i) i)
      (cons-of_atoi text i (length-digits i i) (atoi-digits (suc i) i (omega arith))) h

pub atoi-decimal_negative : (n : ℕ) → n < 2 ^ 63 → atoi (decimal (negsuc n)) ≡ ok (negsuc n)
unfolding decimal atoi
atoi-decimal_negative n h =
    let text = digits (suc (suc n)) (suc n) in
    rw (
      cons-of_atoi text (suc n) (length-digits (suc n) (suc n))
          (atoi-digits (suc (suc n)) (suc n) (omega arith)),
      lt→ltb n (2 ^ 63) h,
    )

parts_of :
    (path ix suffix : Bytes)
    → All IsDigit ix
    → split dot suffix ≡ suffix ∷ []
    → last_two (split dot (path ++ (dot ∷ ix ++ (dot ∷ suffix)))) ≡ some (ix, suffix)
parts_of path ix suffix h e =
    let (c, cs, k) = split-cons dot path in
    rw
      (
        split-append dot path (ix ++ (dot ∷ suffix)),
        split-append dot ix suffix,
        split-digits ix h,
        e,
        k,
      )
      (last_two-append cs c ix suffix)

-- For a sharded file that is named by its hash, and an index below 2^63, `IndexFromShardPath`
-- gives the index of a shard back from the path that `ShardPath` makes for it.
pub index_from_shard_path-shard_path :
    (a : ArchonUrl) (i : ℕ)
    → is_hash a ≡ true
    → is_whole_file a ≡ false
    → i < 2 ^ 63
    → index_from_shard_path (shard_path a (pos i)) ≡ ok (pos i)
unfolding index_from_shard_path shard_path decimal
index_from_shard_path-shard_path a i h w lt =
    let f = digits (suc i) i in
    let d = digits-IsDigit (suc i) i in
    let n =
      atoi-of_digits f i d
        (cons-of_atoi f i (length-digits i i) (atoi-digits (suc i) i (omega arith))) lt in
    rw (h, w, parts_of a.path f hash_file_suffix d (unfold split in refl), n)

-- For a sharded file that is named by its owner, `IndexFromShardPath` refuses the path that
-- `ShardPath` makes for any of its shards, since the case of its suffix has no body.
pub index_from_shard_path-named :
    (a : ArchonUrl) (i : ℕ)
    → is_hash a ≡ false
    → is_whole_file a ≡ false
    → index_from_shard_path (shard_path a (pos i)) ≡ err not_a_shard_path
unfolding index_from_shard_path shard_path decimal
index_from_shard_path-named a i h w =
    let f = digits (suc i) i in
    let path = trim_right (trim_left a.path) in
    let front = a.permission ++ (slash ∷ a.username) ++ (slash ∷ path) in
    let tail = dot ∷ f ++ (dot ∷ shard_file_suffix) in
    let joined = append_assoc (a.permission ++ (slash ∷ a.username)) (slash ∷ path) tail in
    rw (
      h,
      w,
      sym joined,
      parts_of front f shard_file_suffix (digits-IsDigit (suc i) i) (unfold split in refl),
    )
