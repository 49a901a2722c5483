-- ===== src/Common/Address/RoundTrip.antt =====
-- Addresses that are written in one of the documented forms are read back.
use mathlib.Core.List.{append-nil}
use nacos_sdk_nodejs.Prelude.{
  ℕ, ◌+◌, ◌*◌, ◌<◌, ◌≡◌, refl, ◌∙◌, true, false, Option, none, some, Text, codes, List, [], ◌∷◌,
  ◌++◌, map, ◌==◌, arith, All, any, Bool-cases, inl, inr,
}
use nacos_sdk_nodejs.Common.Address.{
  Port, port_number, is_space, trim_start, trim_end, after_prefix, without_scheme, without_path,
  split_last, read_digits, parse_int, parse_server_address,
}

pub data Scheme : Type 0 where
  bare http https : Scheme

abbrev pub scheme_text : Scheme → Text
scheme_text bare = []
scheme_text http = codes "http://"
scheme_text https = codes "https://"

-- a character of a host: no white space and no slash; colons are allowed
abbrev pub IsHostChar : ℕ → Type 0
IsHostChar c = (is_space c ≡ false) × ((c == b'/') ≡ false)

abbrev pub IsDigit : ℕ → Type 0
IsDigit d = d < 10

-- the path that may follow a scheme's address
abbrev pub path_text : Scheme → Option Text → Text
path_text bare p = []
path_text http none = []
path_text http (some p) = b'/' ∷ p
path_text https none = []
path_text https (some p) = b'/' ∷ p

-- a number written in decimal digits, and its value
abbrev pub digit_codes : List ℕ → Text
digit_codes ds = map (λ d. 48 + d) ds

abbrev pub value_from : ℕ → List ℕ → ℕ
value_from n [] = n
value_from n (d ∷ ds) = value_from (n * 10 + d) ds

-- nothing, or a slash and more
abbrev IsTail : Text → Type 0
IsTail [] = Unit
IsTail (c ∷ s) = (c == b'/') ≡ true

read_digits-codes :
    (n : ℕ) (ds : List ℕ) → All IsDigit ds → read_digits n (digit_codes ds) ≡ value_from n ds
unfolding read_digits
read_digits-codes n [] h = refl
read_digits-codes n (d ∷ ds) h = ground (arith, read_digits-codes (n * 10 + d) ds h.1, h.0)

digit_not_space : (d : ℕ) → d < 10 → is_space (48 + d) ≡ false
unfolding is_space
digit_not_space d h = ground arith

parse_int-codes :
    (d : ℕ) (ds : List ℕ)
    → All IsDigit (d ∷ ds)
    → parse_int (digit_codes (d ∷ ds)) ≡ some (port_number (value_from 0 (d ∷ ds)))
unfolding parse_int trim_start
parse_int-codes d ds h = ground (arith, digit_not_space d h.0, read_digits-codes 0 (d ∷ ds) h, h.0)

no_colon-split_last : (ds : List ℕ) → All IsDigit ds → split_last (digit_codes ds) ≡ none
unfolding split_last
no_colon-split_last [] h = refl
no_colon-split_last (d ∷ ds) h = ground (arith, no_colon-split_last ds h.1, h.0)

split_last-host :
    (host : Text) (ds : List ℕ)
    → All IsDigit ds
    → split_last (host ++ (b':' ∷ digit_codes ds)) ≡ some (host, digit_codes ds)
unfolding split_last
split_last-host [] ds h = rw (no_colon-split_last ds h) refl
split_last-host (c ∷ host) ds h = rw (split_last-host host ds h) refl

-- the host, the colon and the digits are free of white space and slashes
host_part-IsHostChar :
    (host : Text) (ds : List ℕ)
    → All IsHostChar host
    → All IsDigit ds
    → All IsHostChar (host ++ (b':' ∷ digit_codes ds))
unfolding is_space
host_part-IsHostChar [] ds h k = ((refl, refl), digits ds k)
  where
    digits : (es : List ℕ) → All IsDigit es → All IsHostChar (digit_codes es)
    digits [] k = tt
    digits (e ∷ es) k = ((digit_not_space e k.0, ground (arith, k.0)), digits es k.1)
host_part-IsHostChar (c ∷ host) ds h k = (h.0, host_part-IsHostChar host ds h.1 k)

without_path-tail : (s p : Text) → All IsHostChar s → IsTail p → without_path (s ++ p) ≡ s
unfolding without_path
without_path-tail [] [] h t = refl
without_path-tail [] (c ∷ p) h t = rw t refl
without_path-tail (c ∷ s) p h t = rw (h.0.1, without_path-tail s p h.1 t) refl

trim_end-IsTail : (p : Text) → IsTail p → (q : Text) × IsTail q × (trim_end p ≡ q)
unfolding trim_end is_space
trim_end-IsTail [] t = ([], tt, refl)
trim_end-IsTail (c ∷ p) t = (c ∷ trim_end p, t, ground (arith, t))

trim_end-host : (s p : Text) → All IsHostChar s → trim_end (s ++ p) ≡ s ++ trim_end p
unfolding trim_end
trim_end-host [] p h = refl
trim_end-host (c ∷ s) p h = rw (h.0.0, trim_end-host s p h.1) refl

after_prefix-none :
    (ps s : Text) → any (λ c. c == b'/') ps ≡ true → All IsHostChar s → after_prefix ps s ≡ none
unfolding after_prefix
after_prefix-none [] s h k = cc
after_prefix-none (p ∷ ps) [] h k = refl
after_prefix-none (p ∷ ps) (c ∷ s) h k = elim (Bool-cases (c == p)) [
  | inl e ↦ rw e (after_prefix-none ps s (ground (arith, h, k.0.1, e)) k.1)
  | inr e ↦ rw e refl
]

trim_start-host : (s : Text) (c : ℕ) → is_space c ≡ false → trim_start (c ∷ s) ≡ c ∷ s
unfolding trim_start
trim_start-host s c h = rw h refl

-- the text of the host and the port, whose first character is no white space
trim_start-parts :
    (host t : Text) → All IsHostChar host → trim_start (host ++ (b':' ∷ t)) ≡ host ++ (b':' ∷ t)
unfolding trim_start is_space
trim_start-parts [] t h = refl
trim_start-parts (c ∷ host) t h = trim_start-host (host ++ (b':' ∷ t)) c h.0.0

trimmed :
    (host : Text) (ds : List ℕ) (p : Text)
    → All IsHostChar host
    → All IsDigit ds
    → IsTail p
    → (q : Text) × IsTail q
      × (trim_end ((host ++ (b':' ∷ digit_codes ds)) ++ p) ≡ (host ++ (b':' ∷ digit_codes ds)) ++ q)
trimmed host ds p h k t =
    let (q, u, e) = trim_end-IsTail p t in
    (
      q,
      u,
      trim_end-host (host ++ (b':' ∷ digit_codes ds)) p (host_part-IsHostChar host ds h k)
          ∙ rw e refl,
    )

path-IsTail : (s : Scheme) (p : Option Text) → IsTail (path_text s p)
path-IsTail bare p = tt
path-IsTail http none = tt
path-IsTail http (some p) = refl
path-IsTail https none = tt
path-IsTail https (some p) = refl

-- the address after its white space, its scheme and its path are gone
cleaned :
    (s : Scheme) (host : Text) (ds : List ℕ) (p : Option Text)
    → All IsHostChar host
    → All IsDigit ds
    → let body = host ++ (b':' ∷ digit_codes ds) in
      without_path
        (without_scheme (trim_end (trim_start (scheme_text s ++ (body ++ path_text s p)))))
      ≡ body
unfolding without_scheme after_prefix trim_start trim_end is_space
cleaned bare host ds p h k =
    let body = host ++ (b':' ∷ digit_codes ds) in
    let n = host_part-IsHostChar host ds h k in
    let trimmed_body = trim_end-host body [] n in
    rw (append-nil body) (
      rw (trim_start-parts host (digit_codes ds) h, rw (append-nil body) at trimmed_body)
        (rw
          (
            after_prefix-none (codes "http://") body refl n,
            after_prefix-none (codes "https://") body refl n,
          )
          (rw (append-nil body) at (without_path-tail body [] n tt))))
cleaned http host ds p h k =
    let (q, u, e) = trimmed host ds (path_text http p) h k (path-IsTail http p) in
    rw e (without_path-tail _ q (host_part-IsHostChar host ds h k) u)
cleaned https host ds p h k =
    let (q, u, e) = trimmed host ds (path_text https p) h k (path-IsTail https p) in
    rw e (without_path-tail _ q (host_part-IsHostChar host ds h k) u)

-- An address that is written as a host, a colon and a number in decimal digits, after no scheme,
-- http:// or https://, and before an optional path where it has a scheme, is parsed as this host
-- and this number, whatever the default port. The host holds no white space and no slash; it may
-- hold colons.
pub parse-written :
    (s : Scheme) (host : Text) (d : ℕ) (ds : List ℕ) (p : Option Text) (default : Port)
    → All IsHostChar host
    → All IsDigit (d ∷ ds)
    → parse_server_address
        (scheme_text s ++ ((host ++ (b':' ∷ digit_codes (d ∷ ds))) ++ path_text s p))
        default
      ≡ record { host = host; port = port_number (value_from 0 (d ∷ ds)) }
unfolding parse_server_address
parse-written s host d ds p default h k =
    rw (cleaned s host (d ∷ ds) p h k, split_last-host host (d ∷ ds) k, parse_int-codes d ds k) refl
