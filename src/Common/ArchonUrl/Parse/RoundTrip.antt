-- ===== src/Common/ArchonUrl/Parse/RoundTrip.antt =====
-- common/archonurl.go: which of its own texts the parser takes back.
use archoncloud_go.Base.{
  ℕ, zero, suc, ◌+◌, ◌/◌, ◌%◌, ◌≤◌, ◌<◌, ◌≡◌, refl, sym, ap, ◌∙◌, subst, [], ◌∷◌, ◌++◌,
  append_assoc, length, length-append, leb, ◌==◌, bytes_eq, ◌&&◌, ◌||◌, ne→==, ==_iff, lt→ltb,
  le→ltb, le→leb, Bool, true, false, Bool-cases, inl, inr, All, All-append, All-weaken, ◌>>=◌,
  Result, ok, err, missing_n, arith,
}
use archoncloud_go.Base.Int.{ℤ, pos}
use archoncloud_go.Common.Bytes.{Bytes}
use archoncloud_go.Common.Names.{is_legal_file_path, is_legal_user_name}
use archoncloud_go.Common.Profiles.{split}
use archoncloud_go.Common.Splitting.{split-field, split-last}
use archoncloud_go.Common.ArchonUrl.{
  ArchonUrl, digits, decimal, atoi, arc_prefix, tld, url_string, is_hash, is_whole_file, dot, slash,
}
use archoncloud_go.Common.ArchonUrl.Paths.{
  IsDigit, digits-IsDigit, length-digits, length-decimal, atoi-decimal,
}
use archoncloud_go.Common.ArchonUrl.Parse.{
  eth, neo, encoding_of, host_parts, read_encoding, needed_and_total, check_path, parsed,
  new_archon_url,
}

-- A letter, a digit, or one of the marks that a URL leaves as they are: "-", "_", "~".
abbrev pub is_unreserved : ℕ → Bool
is_unreserved b =
    (leb 48 b && leb b 57)
    || (leb 65 b && leb b 90)
    || (leb 97 b && leb b 122)
    || (b == 45)
    || (b == 95)
    || (b == 126)

abbrev pub IsHostByte : ℕ → Type 0
IsHostByte b = (is_unreserved b || (b == dot)) ≡ true

abbrev pub IsPathByte : ℕ → Type 0
IsPathByte b = (is_unreserved b || (b == dot) || (b == slash)) ≡ true

-- What is assumed of `url.Parse`: a URL with a plain host, a port and a plain path is taken apart
-- into the host with its port and the path.
pub record IsParse (parse : Bytes → Result (Bytes × Bytes)) : Type 0 where
  pub no_port :
      (host path : Bytes)
      → All IsHostByte host
      → All IsPathByte path
      → parse (arc_prefix ++ host ++ (slash ∷ path)) ≡ ok (host, slash ∷ path)
  pub with_port :
      (host port path : Bytes)
      → All IsHostByte host
      → All IsDigit port
      → All IsPathByte path
      → parse (arc_prefix ++ (host ++ (58 ∷ port)) ++ (slash ∷ path))
        ≡ ok (host ++ (58 ∷ port), slash ∷ path)

decimal-IsDigit : (n : ℕ) → All IsDigit (decimal (pos n))
unfolding decimal
decimal-IsDigit n = digits-IsDigit (suc n) n

-- A number below 10 has one digit, a larger one has more.
decimal-small : (n : ℕ) → n < 10 → decimal (pos n) ≡ (48 + n) ∷ []
unfolding decimal
decimal-small n h = rw (lt→ltb n 10 h)

length-decimal_large : (n : ℕ) → 10 ≤ n → 1 < length (decimal (pos n))
unfolding decimal
length-decimal_large zero h = absurd (omega arith)
length-decimal_large (suc m) h =
    let front = digits (suc m) (suc m / 10) in
    rw (le→ltb (suc m) 10 h, length-append front ((48 + suc m % 10) ∷ []))
      (let some_digit = length-digits m (suc m / 10) in omega arith)

atoi-small : (n : ℕ) → n < 10 → atoi ((48 + n) ∷ []) ≡ ok (pos n)
atoi-small n h = subst (λ f. atoi f ≡ ok (pos n)) (decimal-small n h) (atoi-decimal n (omega arith))

-- The text of two numbers of one digit.
read_encoding-small :
    (n t : ℕ)
    → 0 < n
    → n ≤ t
    → t < 10
    → read_encoding (decimal (pos n) ++ (58 ∷ decimal (pos t))) ≡ ok (pos n, pos t)
unfolding read_encoding needed_and_total split
read_encoding-small zero t p le lt = absurd (omega arith)
read_encoding-small (suc n) t p le lt = rw (
  decimal-small (suc n) (omega arith),
  decimal-small t lt,
  ne→== (48 + suc n) 58 (λ e. absurd (omega arith)),
  ne→== (48 + t) 58 (λ e. absurd (omega arith)),
  atoi-small (suc n) (omega arith),
  atoi-small t lt,
  le→leb (suc n) t le,
)

length-encoding_small :
    (n t : ℕ) → n < 10 → t < 10 → length (decimal (pos n) ++ (58 ∷ decimal (pos t))) ≡ 3
length-encoding_small n t ln lt = rw (decimal-small n ln, decimal-small t lt)

length-encoding_large : (n t : ℕ) → 10 ≤ t → 4 ≤ length (decimal (pos n) ++ (58 ∷ decimal (pos t)))
length-encoding_large n t lt =
    let some_digit = length-decimal n in
    let more_digits = length-decimal_large t lt in
    omega (arith, length-append (decimal (pos n)) (58 ∷ decimal (pos t)))

-- A URL of a sharded file named by its owner, whose fields are plain: what is asked of it to be read
-- back.
pub record IsNamed (a : ArchonUrl) (rest : Bytes) (n t : ℕ) : Type 0 where
  pub path_starts : a.path ≡ slash ∷ rest
  pub needs : a.needed ≡ pos n
  pub of_total : a.total ≡ pos t
  pub some_needed : 0 < n
  pub enough : n ≤ t
  pub some_name : is_hash a ≡ false
  pub legal_name : is_legal_user_name a.username ≡ ok tt
  pub legal_path : is_legal_file_path a.path ≡ ok tt
  pub of_chain : (bytes_eq a.permission eth || bytes_eq a.permission neo) ≡ true
  pub name_bytes : All (λ b. is_unreserved b ≡ true) a.username
  pub permission_bytes : All (λ b. is_unreserved b ≡ true) a.permission
  pub path_bytes : All IsPathByte rest

encoding : ℕ → ℕ → Bytes
encoding n t = decimal (pos n) ++ (58 ∷ decimal (pos t))

named_text : Bytes → Bytes → Bytes → ℕ → ℕ → Bytes
named_text user perm rest n t =
    arc_prefix
    ++ ((user ++ (dot ∷ perm ++ (dot ∷ 110 ∷ decimal (pos n)))) ++ (58 ∷ decimal (pos t)))
    ++ (slash ∷ rest)

regroup :
    (user perm d e rest : Bytes)
    → arc_prefix ++ user ++ (dot ∷ perm) ++ (dot ∷ 110 ∷ (d ++ (58 ∷ e))) ++ (slash ∷ rest)
      ≡ arc_prefix ++ ((user ++ (dot ∷ perm ++ (dot ∷ 110 ∷ d))) ++ (58 ∷ e)) ++ (slash ∷ rest)
regroup user perm d e rest = simp append_assoc

regroup_host :
    (user perm d e : Bytes)
    → (user ++ (dot ∷ perm ++ (dot ∷ 110 ∷ d))) ++ (58 ∷ e)
      ≡ user ++ (dot ∷ (perm ++ (dot ∷ 110 ∷ (d ++ (58 ∷ e)))))
regroup_host user perm d e = simp append_assoc

url_string-named :
    (a : ArchonUrl) (rest : Bytes) (n t : ℕ) (h : IsNamed a rest n t)
    → url_string a ≡ ok (named_text a.username a.permission rest n t)
unfolding url_string tld named_text is_whole_file
url_string-named a rest n t h =
    let p = h.some_needed in
    rw (h.some_name, h.needs, h.of_total, h.path_starts, ne→== n 0 (λ e. absurd (omega arith)))
      (ap ok (regroup a.username a.permission (decimal (pos n)) (decimal (pos t)) rest))

unreserved_host : (b : ℕ) → is_unreserved b ≡ true → IsHostByte b
unreserved_host b e = rw e

digit_unreserved : (b : ℕ) → IsDigit b → is_unreserved b ≡ true
digit_unreserved b (lo, hi) = rw (le→leb 48 b lo, le→leb b 57 hi)

-- The host without its port.
host_bytes :
    (user perm : Bytes) (n : ℕ)
    → All (λ b. is_unreserved b ≡ true) user
    → All (λ b. is_unreserved b ≡ true) perm
    → All IsHostByte (user ++ (dot ∷ perm ++ (dot ∷ 110 ∷ decimal (pos n))))
host_bytes user perm n u p = All-append IsHostByte user _ (All-weaken user unreserved_host u) (
  refl,
  All-append IsHostByte perm _ (All-weaken perm unreserved_host p) (
    refl,
    (
      refl,
      All-weaken (decimal (pos n)) (λ b d. unreserved_host b (digit_unreserved b d))
          (decimal-IsDigit n),
    ),
  ),
)

not_dot : (b : ℕ) → is_unreserved b ≡ true → (b == dot) ≡ false
not_dot b e = elim (Bool-cases (b == dot)) [
  | inr k ↦ k
  | inl k ↦
      let wrong : false ≡ true = subst (λ x. is_unreserved x ≡ true) ((==_iff b dot).0 k) e in cc
]

digit_not_dot : (b : ℕ) → IsDigit b → (b == dot) ≡ false
digit_not_dot b (lo, hi) = ne→== b dot (λ e. absurd (omega arith))

-- The parts of the host.
split-host :
    (user perm : Bytes) (n t : ℕ)
    → All (λ b. is_unreserved b ≡ true) user
    → All (λ b. is_unreserved b ≡ true) perm
    → split dot ((user ++ (dot ∷ perm ++ (dot ∷ 110 ∷ decimal (pos n)))) ++ (58 ∷ decimal (pos t)))
      ≡ user ∷ perm ∷ (110 ∷ encoding n t) ∷ []
unfolding encoding
split-host user perm n t u p = rw (
  regroup_host user perm (decimal (pos n)) (decimal (pos t)),
  split-field dot user (perm ++ (dot ∷ 110 ∷ encoding n t)) (All-weaken user not_dot u),
  split-field dot perm (110 ∷ encoding n t) (All-weaken perm not_dot p),
  split-last dot (110 ∷ encoding n t) (
    refl,
    All-append (λ b. (b == dot) ≡ false) (decimal (pos n)) _
        (All-weaken (decimal (pos n)) digit_not_dot (decimal-IsDigit n))
        (refl, All-weaken (decimal (pos t)) digit_not_dot (decimal-IsDigit t)),
  ),
)

host_parts-named :
    (user perm e : Bytes)
    → bytes_eq user [] ≡ false
    → is_legal_user_name user ≡ ok tt
    → (bytes_eq perm eth || bytes_eq perm neo) ≡ true
    → host_parts (user ∷ perm ∷ (110 ∷ e) ∷ [])
      ≡ (encoding_of 110 (err missing_n) (110 ∷ e) >>= λ enc. ok (user, perm, enc))
unfolding host_parts
host_parts-named user perm e some_name legal chain = rw (some_name, legal, chain)

rebuilt :
    (a : ArchonUrl) (rest : Bytes) (n t : ℕ) (h : IsNamed a rest n t)
    → record {
      username = a.username;
      permission = a.permission;
      path = slash ∷ rest;
      needed = pos n;
      total = pos t;
    }
      ≡ a
rebuilt a rest n t h = rw (sym h.path_starts, sym h.needs, sym h.of_total)

module _ (parse : Bytes → Result (Bytes × Bytes)) (base58_decode : Bytes → Bytes)
    (is_parse : IsParse parse) where
  -- What the parser makes of a named URL's text, but for the encoding.
  parsed-named :
      (a : ArchonUrl) (rest : Bytes) (n t : ℕ) (h : IsNamed a rest n t)
      → new_archon_url parse base58_decode (named_text a.username a.permission rest n t) ≡ (
          (encoding_of 110 (err missing_n) (110 ∷ encoding n t) >>= λ enc.
          ok (a.username, a.permission, enc))
          >>= λ (p : Bytes × Bytes × Bytes). read_encoding p.2 >>= λ (q : ℤ × ℤ).
              check_path parse base58_decode (record {
                username = p.0;
                permission = p.1;
                path = slash ∷ rest;
                needed = q.0;
                total = q.1;
              }))
  unfolding new_archon_url parsed named_text
  parsed-named a rest n t h =
      let host = a.username ++ (dot ∷ a.permission ++ (dot ∷ 110 ∷ decimal (pos n))) in
      rw (
        is_parse.with_port host (decimal (pos t)) rest
            (host_bytes a.username a.permission n h.name_bytes h.permission_bytes)
            (decimal-IsDigit t) h.path_bytes,
        split-host a.username a.permission n t h.name_bytes h.permission_bytes,
        host_parts-named a.username a.permission (encoding n t) (unfold is_hash in h.some_name)
            h.legal_name h.of_chain,
      )

  -- A URL of a sharded file that is named by its owner, with plain fields and fewer than ten shards,
  -- is read back from its text.
  pub new_archon_url-url_string :
      (a : ArchonUrl) (rest : Bytes) (n t : ℕ) (h : IsNamed a rest n t)
      → t < 10
      → (s : Bytes) × (url_string a ≡ ok s) × (new_archon_url parse base58_decode s ≡ ok a)
  unfolding encoding_of encoding check_path is_hash
  new_archon_url-url_string a rest n t h lt = (
    named_text a.username a.permission rest n t,
    url_string-named a rest n t h,
    parsed-named a rest n t h
        ∙ (let p = h.some_needed in
            let le = h.enough in
            let named : bytes_eq a.username [] ≡ false = unfold is_hash in h.some_name in
            let legal =
              subst (λ path. is_legal_file_path path ≡ ok tt) h.path_starts h.legal_path in
            rw
              (
                length-encoding_small n t (omega arith) lt,
                read_encoding-small n t p le lt,
                named,
                legal,
              )
              (ap ok (rebuilt a rest n t h))),
  )

  -- If there are ten shards or more, its text is refused.
  pub new_archon_url-refuses :
      (a : ArchonUrl) (rest : Bytes) (n t : ℕ) (h : IsNamed a rest n t)
      → 10 ≤ t
      → (s : Bytes) × (url_string a ≡ ok s) × (new_archon_url parse base58_decode s ≡ err missing_n)
  unfolding encoding_of encoding
  new_archon_url-refuses a rest n t h le = (
    named_text a.username a.permission rest n t,
    url_string-named a rest n t h,
    parsed-named a rest n t h
        ∙ rw (
            lt→ltb 4 (suc (length (encoding n t)))
              (let l = length-encoding_large n t le in omega arith)),
  )
