-- ===== src/Common/Lines.antt =====
-- common/utils.go: the number of lines in what a reader gives, and the last lines of a file.
use archoncloud_go.Base.{
  ℕ, suc, ◌+◌, ◌-◌, ◌<◌, ◌⊎◌, leb, append-nil, append_assoc, true, false, zero, ◌≡◌, refl, sym, ap,
  ◌∙◌, [], ◌∷◌, ◌++◌, ◌==◌, Bool-cases, inl, inr, if◌then◌else◌, Error, Option, arith,
}
use archoncloud_go.Common.Bytes.{Bytes}

-- `bytes.Count` for one byte.
abbrev pub count : Bytes → ℕ → ℕ
count [] sep = 0
count (b ∷ bs) sep = let rest = count bs sep in if b == sep then suc rest else rest

-- What the calls of `Read` give, up to 32 KB each: bytes, and at last bytes with the end of the file (`none`) or an
-- error.
pub data Reads : Type 0 where
  gives : Bytes → Reads → Reads
  ends : Bytes → Option Error → Reads

-- The loop, from the count so far.
unfoldable pub count_reads : ℕ → Reads → ℕ × Option Error
count_reads n (gives buf rest) = count_reads (n + count buf 10) rest
count_reads n (ends buf e) = (n + count buf 10, e)

unfoldable pub num_lines : Reads → ℕ × Option Error
unfolding count_reads
num_lines r = count_reads 0 r

abbrev pub all_bytes : Reads → Bytes
all_bytes (gives buf rest) = buf ++ all_bytes rest
all_bytes (ends buf e) = buf

abbrev pub last_error : Reads → Option Error
last_error (gives buf rest) = last_error rest
last_error (ends buf e) = e

count-append : (xs ys : Bytes) (sep : ℕ) → count (xs ++ ys) sep ≡ count xs sep + count ys sep
count-append [] ys sep = omega arith
count-append (x ∷ xs) ys sep = elim (Bool-cases (x == sep)) [
  | inl e ↦ rw (e, count-append xs ys sep) (omega arith)
  | inr e ↦ rw (e, count-append xs ys sep) refl
]

count_reads-all_bytes :
    (n : ℕ) (r : Reads) → count_reads n r ≡ (n + count (all_bytes r) 10, last_error r)
unfolding count_reads
count_reads-all_bytes n (gives buf rest) =
    rw (count_reads-all_bytes (n + count buf 10) rest, count-append buf (all_bytes rest) 10)
      (ap (λ (k : ℕ). (k, last_error rest)) (omega arith))
count_reads-all_bytes n (ends buf e) = refl

-- The number of lines is the number of line ends in all bytes of the reader, however its calls split
-- them, and the error is the reader's, if it is not the end of the file.
pub num_lines-all_bytes : (r : Reads) → num_lines r ≡ (count (all_bytes r) 10, last_error r)
unfolding num_lines
num_lines-all_bytes r = count_reads-all_bytes 0 r ∙ ap (λ (k : ℕ). (k, last_error r)) (omega arith)

-- The loop reads a file from its end: the bytes before the cursor, the last one first, and those behind it.
unfoldable pub read_back : ℕ → Bytes → Bytes → Bytes
read_back to_read [] buf = buf
read_back to_read (b ∷ []) buf = b ∷ buf
read_back to_read (b ∷ c ∷ rest) buf =
    let next = read_back to_read (c ∷ rest) (b ∷ buf) in
    let next_line = read_back (to_read - 1) (c ∷ rest) (b ∷ buf) in
    if b == 10 then if leb to_read 1 then b ∷ buf else next_line else next

abbrev pub reversed : Bytes → Bytes
reversed [] = []
reversed (b ∷ bs) = reversed bs ++ (b ∷ [])

-- What is written: in an empty file the first step goes to before its start, which is the error `seek_error`.
-- The file can be opened and its reads do not fail.
unfoldable pub write_last_lines : Bytes → Bytes → ℕ → Bytes
unfolding read_back
write_last_lines seek_error [] num_lines = seek_error
write_last_lines seek_error (b ∷ bs) num_lines = read_back num_lines (reversed (b ∷ bs)) []

abbrev pub at_least_one : ℕ → ℕ
at_least_one zero = 1
at_least_one (suc n) = suc n

-- `tail` is the end of `bs` that begins at the n-th line end from the end, or all of `bs` if fewer line ends
-- are behind its first byte.
pub record IsTail (n : ℕ) (bs tail : Bytes) : Type 0 where
  pub before : Bytes
  pub first : ℕ
  pub behind : Bytes
  pub is_tail : tail ≡ first ∷ behind
  pub whole : before ++ (first ∷ behind) ≡ bs
  pub begins :
      ((first ≡ 10) × (suc (count behind 10) ≡ n)) ⊎ ((before ≡ []) × (count behind 10 < n))

reversed-append : (xs ys : Bytes) → reversed (xs ++ ys) ≡ reversed ys ++ reversed xs
reversed-append [] ys = sym (append-nil (reversed ys))
reversed-append (x ∷ xs) ys =
    ap (λ (zs : Bytes). zs ++ (x ∷ [])) (reversed-append xs ys)
    ∙ append_assoc (reversed ys) (reversed xs) (x ∷ [])

reversed-reversed : (bs : Bytes) → reversed (reversed bs) ≡ bs
reversed-reversed [] = refl
reversed-reversed (b ∷ bs) =
    reversed-append (reversed bs) (b ∷ []) ∙ ap (λ (zs : Bytes). b ∷ zs) (reversed-reversed bs)

-- What the loop puts before the bytes behind the cursor.
abbrev pub HasTail : ℕ → Bytes → Bytes → Bytes → Type 0
HasTail n rest buf out = (tail : Bytes) × (out ≡ tail ++ buf) × IsTail n (reversed rest) tail

one_plus : (n : ℕ) → 1 + n ≡ suc n
one_plus n = omega arith

at_least_one-bound : (n : ℕ) → 0 < at_least_one n
at_least_one-bound zero = omega arith
at_least_one-bound (suc n) = omega arith

at_least_one-leb : (n : ℕ) → leb n 1 ≡ true → at_least_one n ≡ 1
at_least_one-leb zero e = refl
at_least_one-leb (suc n) e = grind arith

pred_suc : (n : ℕ) → suc n - 1 ≡ n
pred_suc n = omega arith

at_least_one-pred : (n : ℕ) → leb n 1 ≡ false → suc (at_least_one (n - 1)) ≡ at_least_one n
at_least_one-pred zero e = grind arith
at_least_one-pred (suc zero) e = grind arith
at_least_one-pred (suc (suc n)) e = ap (λ (k : ℕ). suc (at_least_one k)) (pred_suc (suc n))

-- One byte more at the end of the tail.
tail-cons :
    (n m : ℕ) (b : ℕ) (rest buf out : Bytes)
    → count (b ∷ []) 10 + m ≡ n
    → HasTail m rest (b ∷ buf) out
    → HasTail n (b ∷ rest) buf out
tail-cons n m b rest buf out k (tail, e, t) =
    let c = count-append t.behind (b ∷ []) 10 in
    (
      tail ++ (b ∷ []),
      e ∙ sym (append_assoc tail (b ∷ []) buf),
      record {
        before = t.before;
        first = t.first;
        behind = t.behind ++ (b ∷ []);
        is_tail = ap (λ (zs : Bytes). zs ++ (b ∷ [])) t.is_tail;
        whole =
            sym (append_assoc t.before (t.first ∷ t.behind) (b ∷ []))
            ∙ ap (λ (zs : Bytes). zs ++ (b ∷ [])) t.whole;
        begins = elim t.begins [
          | inl (q, h) ↦ inl (q, omega arith)
          | inr (q, h) ↦ inr (q, omega arith)
        ];
      },
    )

read_back-HasTail :
    (n b : ℕ) (rest buf : Bytes)
    → HasTail (at_least_one n) (b ∷ rest) buf (read_back n (b ∷ rest) buf)
unfolding read_back
read_back-HasTail n b [] buf = (
  b ∷ [],
  refl,
  record {
    before = [];
    first = b;
    behind = [];
    is_tail = refl;
    whole = refl;
    begins = inr (refl, at_least_one-bound n);
  },
)
read_back-HasTail n b (c ∷ rest) buf = elim (Bool-cases (b == 10)) [
  | inl e ↦ elim (Bool-cases (leb n 1)) [
    | inl l ↦
        rw (e, l, at_least_one-leb n l)
          (
            b ∷ [],
            refl,
            record {
              before = reversed (c ∷ rest);
              first = b;
              behind = [];
              is_tail = refl;
              whole = refl;
              begins = inl (grind arith, refl);
            },
          )
    | inr l ↦
        rw (e, l)
          (tail-cons (at_least_one n) (at_least_one (n - 1)) b (c ∷ rest) buf
            (read_back (n - 1) (c ∷ rest) (b ∷ buf))
            (rw e (one_plus (at_least_one (n - 1)) ∙ at_least_one-pred n l))
            (read_back-HasTail (n - 1) c rest (b ∷ buf)))
  ]
  | inr e ↦ rw e (
      tail-cons (at_least_one n) (at_least_one n) b (c ∷ rest) buf
        (read_back n (c ∷ rest) (b ∷ buf)) (rw e (omega arith))
        (read_back-HasTail n c rest (b ∷ buf)))
]

append-cons : (xs : Bytes) (b : ℕ) → (c : ℕ) × (rest : Bytes) × (xs ++ (b ∷ []) ≡ c ∷ rest)
append-cons [] b = (b, [], refl)
append-cons (c ∷ xs) b = (c, xs ++ (b ∷ []), refl)

-- From a file that is not empty, the end is written that begins at the wanted line end, counted from the end
-- of the file (the last one if none is wanted), or the whole file, if fewer are behind its first byte.
pub write_last_lines-IsTail :
    (seek_error : Bytes) (b : ℕ) (bs : Bytes) (n : ℕ)
    → IsTail (at_least_one n) (b ∷ bs) (write_last_lines seek_error (b ∷ bs) n)
unfolding write_last_lines
write_last_lines-IsTail seek_error b bs n =
    let (c, rest, e) = append-cons (reversed bs) b in
    let (tail, q, t) = read_back-HasTail n c rest [] in
    let back = sym (ap reversed e) ∙ reversed-reversed (b ∷ bs) in
    rw (e, q, append-nil tail, sym back) t
