-- ===== src/Tests/Urls.antt =====
-- The theorems on the parser of Archon URLs, on concrete inputs.
use archoncloud_go.Base.{
  ℕ, ◌≤◌, ◌≡◌, refl, subst, [], ◌∷◌, ◌++◌, All, All-append, All-weaken, ◌==◌, ==_iff, ne→==,
  Bool-cases, true, false, if◌then◌else◌, inl, inr, Result, ok, err, foreign, missing_n, arith,
}
use archoncloud_go.Base.Int.{pos}
use archoncloud_go.Common.Bytes.{Bytes}
use archoncloud_go.Common.Names.{is_legal_file_path, is_legal_user_name}
use archoncloud_go.Common.ArchonUrl.{ArchonUrl, slash, is_hash, url_string, arc_prefix}
use archoncloud_go.Common.ArchonUrl.Paths.{IsDigit}
use archoncloud_go.Common.ArchonUrl.Parse.{new_archon_url}
use archoncloud_go.Common.ArchonUrl.Parse.RoundTrip.{
  IsHostByte, IsParse, IsNamed, new_archon_url-url_string, new_archon_url-refuses,
}

abbrev before_slash : Bytes → Bytes
before_slash [] = []
before_slash (b ∷ bs) = let rest = before_slash bs in if b == slash then [] else b ∷ rest

abbrev from_slash : Bytes → Bytes
from_slash [] = []
from_slash (b ∷ bs) = let rest = from_slash bs in if b == slash then b ∷ bs else rest

-- A parser of URLs that have nothing but a scheme, a host and a path.
abbrev pub plain_parse : Bytes → Result (Bytes × Bytes)
plain_parse (a ∷ r ∷ c ∷ d ∷ s ∷ t ∷ rest) = ok (before_slash rest, from_slash rest)
plain_parse _ = err foreign

before_slash-host :
    (host rest : Bytes)
    → All (λ b. (b == slash) ≡ false) host
    → before_slash (host ++ (slash ∷ rest)) ≡ host
before_slash-host [] rest h = refl
before_slash-host (b ∷ host) rest (e, h) = rw (e, before_slash-host host rest h)

from_slash-host :
    (host rest : Bytes)
    → All (λ b. (b == slash) ≡ false) host
    → from_slash (host ++ (slash ∷ rest)) ≡ slash ∷ rest
from_slash-host [] rest h = refl
from_slash-host (b ∷ host) rest (e, h) = rw (e, from_slash-host host rest h)

host_not_slash : (b : ℕ) → IsHostByte b → (b == slash) ≡ false
host_not_slash b e = elim (Bool-cases (b == slash)) [
  | inr k ↦ k
  | inl k ↦
      absurd (let wrong : false ≡ true = subst (λ x. IsHostByte x) ((==_iff b slash).0 k) e in cc)
]

digit_not_slash : (b : ℕ) → IsDigit b → (b == slash) ≡ false
digit_not_slash b (lo, hi) = ne→== b slash (λ e. absurd (omega arith))

plain_parse-parts :
    (host path : Bytes)
    → All (λ b. (b == slash) ≡ false) host
    → plain_parse (arc_prefix ++ host ++ (slash ∷ path)) ≡ ok (host, slash ∷ path)
plain_parse-parts host path h = rw (before_slash-host host path h, from_slash-host host path h)

pub plain_parse-IsParse : IsParse plain_parse
plain_parse-IsParse = record {
  no_port = λ host path h p. plain_parse-parts host path (All-weaken host host_not_slash h);
  with_port = λ host port path h d p. plain_parse-parts (host ++ (58 ∷ port)) path (
      All-append (λ b. (b == slash) ≡ false) host (58 ∷ port) (All-weaken host host_not_slash h)
        (refl, All-weaken port digit_not_slash d));
}

-- "bob", "eth" and "/a", with two shards needed of seven
abbrev pub bob_url : ArchonUrl
bob_url = record {
  username = 98 ∷ 111 ∷ 98 ∷ [];
  permission = 101 ∷ 116 ∷ 104 ∷ [];
  path = 47 ∷ 97 ∷ [];
  needed = pos 2;
  total = pos 7;
}

of_total-IsNamed : (t : ℕ) → 2 ≤ t → IsNamed (record bob_url { total = pos t }) (97 ∷ []) 2 t
unfolding is_hash is_legal_file_path is_legal_user_name
of_total-IsNamed t h = record {
  path_starts = refl;
  needs = refl;
  of_total = refl;
  some_needed = omega arith;
  enough = omega arith;
  some_name = refl;
  legal_name = refl;
  legal_path = refl;
  of_chain = refl;
  name_bytes = (refl, (refl, (refl, tt)));
  permission_bytes = (refl, (refl, (refl, tt)));
  path_bytes = (refl, tt);
}

new_archon_url-url_string_example :
    (s : Bytes) × (url_string bob_url ≡ ok s) × (new_archon_url plain_parse (λ h. h) s ≡ ok bob_url)
new_archon_url-url_string_example =
    new_archon_url-url_string plain_parse (λ h. h) plain_parse-IsParse bob_url (97 ∷ []) 2 7
      (of_total-IsNamed 7 (omega arith)) (omega arith)

new_archon_url-refuses_example :
    (s : Bytes) × (url_string (record bob_url { total = pos 12 }) ≡ ok s)
    × (new_archon_url plain_parse (λ h. h) s ≡ err missing_n)
new_archon_url-refuses_example =
    new_archon_url-refuses plain_parse (λ h. h) plain_parse-IsParse
      (record bob_url { total = pos 12 }) (97 ∷ []) 2 12 (of_total-IsNamed 12 (omega arith))
      (omega arith)
