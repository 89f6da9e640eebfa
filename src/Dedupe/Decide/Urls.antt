-- ===== src/Dedupe/Decide/Urls.antt =====
-- What `normalizeURL` makes of a URL.
use devsignal.Prelude.{
  ℕ, ◌≡◌, ◌≢◌, refl, ap, ◌⊎◌, inl, inr, not, true, false, ◌&&◌, ◌||◌, Option, none, some, [], ◌∷◌,
  ◌++◌, All, arith, ◌==◌, bytes, if◌then◌else◌,
}
use devsignal.Prelude.Text.{Text, has_prefix, drop, is_empty}
use devsignal.Dedupe.Decide.{before_query, trim_prefix, trim_slash, has_rune, url_key}

-- Neither a question mark nor a hash.
abbrev NotQuery : ℕ → Type 0
NotQuery c = (c == b'?' || c == b'#') ≡ false

-- A host and path, without scheme and query.
pub record IsPlainPath (p : Text) : Type 0 where
  pub filled : p ≢ []
  pub clean : All NotQuery p
  pub no_https : has_prefix p (bytes "https://") ≡ false
  pub no_http : has_prefix p (bytes "http://") ≡ false

before_query-path : (p : Text) → All NotQuery p → before_query p ≡ p
unfolding before_query
before_query-path [] h = refl
before_query-path (c ∷ p) h = rw h.0 (ap (λ r. c ∷ r) (before_query-path p h.1))

before_query-query :
    (p : Text) (mark : ℕ) (q : Text)
    → All NotQuery p
    → (mark == b'?' || mark == b'#') ≡ true
    → before_query (p ++ mark ∷ q) ≡ p
unfolding before_query
before_query-query [] mark q h m = rw m refl
before_query-query (c ∷ p) mark q h m = rw h.0 (ap (λ r. c ∷ r) (before_query-query p mark q h.1 m))

-- A prefix without a mark is none of a longer text if it is none of the text before the mark.
has_prefix-query :
    (p pre : Text) (mark : ℕ) (q : Text)
    → All (λ d. (mark == d) ≡ false) pre
    → has_prefix p pre ≡ false
    → has_prefix (p ++ mark ∷ q) pre ≡ false
unfolding has_prefix
has_prefix-query p [] mark q h e = absurd (ground arith)
has_prefix-query [] (d ∷ pre) mark q h e = rw h.0 refl
has_prefix-query (c ∷ p) (d ∷ pre) mark q h e =
    elim (c == d)
        as (λ t. (t && has_prefix p pre) ≡ false → (t && has_prefix (p ++ mark ∷ q) pre) ≡ false) [
          | true ↦ λ e. has_prefix-query p pre mark q h.1 e
          | false ↦ λ e. refl
        ]
      e

trim_prefix_none : (s p : Text) → has_prefix s p ≡ false → trim_prefix s p ≡ s
unfolding trim_prefix
trim_prefix_none s p e = rw e refl

mark_lem : (mark : ℕ) → (mark == b'?' || mark == b'#') ≡ true → (mark ≡ b'?') ⊎ (mark ≡ b'#')
mark_lem mark h = ground arith

no_mark :
    (mark : ℕ)
    → (mark == b'?' || mark == b'#') ≡ true
    → All (λ d. (mark == d) ≡ false) (bytes "https://")
      × All (λ d. (mark == d) ≡ false) (bytes "http://")
no_mark mark h = elim (mark_lem mark h) [
  | inl e ↦ rw e (question, question_http)
  | inr e ↦ rw e (hash, hash_http)
]
  where
    question : All (λ d. (b'?' == d) ≡ false) (bytes "https://")
    question = (refl, (refl, (refl, (refl, (refl, (refl, (refl, (refl, tt))))))))

    question_http : All (λ d. (b'?' == d) ≡ false) (bytes "http://")
    question_http = (refl, (refl, (refl, (refl, (refl, (refl, (refl, tt)))))))

    hash : All (λ d. (b'#' == d) ≡ false) (bytes "https://")
    hash = (refl, (refl, (refl, (refl, (refl, (refl, (refl, (refl, tt))))))))

    hash_http : All (λ d. (b'#' == d) ≡ false) (bytes "http://")
    hash_http = (refl, (refl, (refl, (refl, (refl, (refl, (refl, tt)))))))

filled_lem : (p : Text) → p ≢ [] → is_empty p ≡ false
filled_lem [] h = absurd (h refl)
filled_lem (c ∷ p) h = refl

append_filled : (p s : Text) → p ≢ [] → is_empty (p ++ s) ≡ false
append_filled [] s h = absurd (h refl)
append_filled (c ∷ p) s h = refl

-- The key of a path, its scheme, query and fragment cut off.
abbrev path_key : Text → Option Text
path_key path = if is_empty path || not (has_rune b'/' path) then none else some path

url_key-path : (p : Text) → IsPlainPath p → url_key p ≡ path_key (trim_slash p)
unfolding url_key
url_key-path p h =
    rw
      (
        trim_prefix_none p (bytes "https://") h.no_https,
        trim_prefix_none p (bytes "http://") h.no_http,
        before_query-path p h.clean,
        filled_lem p h.filled,
      )
      refl

url_key-https : (p : Text) → IsPlainPath p → url_key (bytes "https://" ++ p) ≡ url_key p
unfolding url_key trim_prefix has_prefix drop
url_key-https p h =
    rw
      (
        url_key-path p h,
        trim_prefix_none p (bytes "http://") h.no_http,
        before_query-path p h.clean,
      )
      refl

url_key-http : (p : Text) → IsPlainPath p → url_key (bytes "http://" ++ p) ≡ url_key p
unfolding url_key trim_prefix has_prefix drop
url_key-http p h = rw (url_key-path p h, before_query-path p h.clean) refl

url_key-query :
    (p q : Text) (mark : ℕ)
    → IsPlainPath p
    → (mark == b'?' || mark == b'#') ≡ true
    → url_key (p ++ mark ∷ q) ≡ url_key p
unfolding url_key
url_key-query p q mark h m =
    let long = p ++ mark ∷ q in
    let https =
      trim_prefix_none long (bytes "https://")
        (has_prefix-query p (bytes "https://") mark q (no_mark mark m).0 h.no_https) in
    let http =
      trim_prefix_none long (bytes "http://")
        (has_prefix-query p (bytes "http://") mark q (no_mark mark m).1 h.no_http) in
    rw
      (
        url_key-path p h,
        append_filled p (mark ∷ q) h.filled,
        https,
        http,
        before_query-query p mark q h.clean m,
      )
      refl

-- The scheme and what follows a question mark or a hash do not matter: for a host and path p that is
-- not empty, has no such mark and starts with no scheme, the URLs with either scheme in front of p
-- and with a query or a fragment behind it have the key of p.
pub url_key_ignores :
    (p q : Text) (mark : ℕ)
    → IsPlainPath p
    → (mark == b'?' || mark == b'#') ≡ true
    → (url_key (bytes "https://" ++ p) ≡ url_key p)
      × (url_key (bytes "http://" ++ p) ≡ url_key p)
      × (url_key (p ++ mark ∷ q) ≡ url_key p)
url_key_ignores p q mark h m = (url_key-https p h, url_key-http p h, url_key-query p q mark h m)
