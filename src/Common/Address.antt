-- ===== src/Common/Address.antt =====
-- packages/nacos-common/src/interface.ts: `parseServerAddress`, a server's address with an optional
-- scheme, port and path. JavaScript's `trim`, `startsWith`, `indexOf`, `lastIndexOf` and `parseInt`
-- are written out over lists of character codes.
pub mod RoundTrip
use nacos_sdk_nodejs.Prelude.{
  ℕ, ◌+◌, ◌-◌, ◌*◌, Bool, true, false, ◌&&◌, ◌||◌, Option, none, some, Text, codes, List, [], ◌∷◌,
  if◌then◌else◌, ◌==◌, leb,
}
use nacos_sdk_nodejs.Prelude.Emitter.{is_nil}

-- a number that `parseInt` reads; beyond 2 ^ 53 the source's number is rounded
pub record Port : Type 0 where
  pub is_negative : Bool
  pub size : ℕ

pub record ServerAddress : Type 0 where
  pub host : Text
  pub port : Port

abbrev pub port_number : ℕ → Port
port_number n = record { is_negative = false; size = n }

-- white space, as `trim` and `parseInt` take it
unfoldable pub is_space : ℕ → Bool
is_space c =
    (leb 9 c && leb c 13)
    || (c == 32
        || (c == 160
            || (c == 0x1680
                || ((leb 0x2000 c && leb c 0x200a)
                    || (c == 0x2028
                        || (c == 0x2029
                            || (c == 0x202f || (c == 0x205f || (c == 0x3000 || c == 0xfeff)))))))))

unfoldable pub trim_start : Text → Text
trim_start [] = []
trim_start (c ∷ s) = let rest = trim_start s in if is_space c then rest else c ∷ s

unfoldable pub trim_end : Text → Text
trim_end [] = []
trim_end (c ∷ s) = let rest = trim_end s in if is_space c && is_nil rest then [] else c ∷ rest

-- what follows a prefix: none where the text does not start with it
unfoldable pub after_prefix : Text → Text → Option Text
after_prefix [] s = some s
after_prefix (p ∷ ps) [] = none
after_prefix (p ∷ ps) (c ∷ s) = let rest = after_prefix ps s in if c == p then rest else none

abbrev pub or_else : Option Text → Text → Text
or_else none d = d
or_else (some s) d = s

-- the two tests for a scheme
unfoldable pub without_scheme : Text → Text
without_scheme s =
    or_else (after_prefix (codes "http://") s) (or_else (after_prefix (codes "https://") s) s)

-- up to the first slash
unfoldable pub without_path : Text → Text
without_path [] = []
without_path (c ∷ s) = let rest = without_path s in if c == b'/' then [] else c ∷ rest

abbrev pub push_before : ℕ → Text → Option (Text × Text) → Option (Text × Text)
push_before c s (some (a, b)) = some (c ∷ a, b)
push_before c s none = if c == b':' then some ([], s) else none

-- what stands before and after the last colon
unfoldable pub split_last : Text → Option (Text × Text)
split_last [] = none
split_last (c ∷ s) = push_before c s (split_last s)

abbrev pub is_digit : ℕ → Bool
is_digit c = leb 48 c && leb c 57

unfoldable pub read_digits : ℕ → Text → ℕ
read_digits n [] = n
read_digits n (c ∷ s) =
    let rest = read_digits (n * 10 + (c - 48)) s in if is_digit c then rest else n

abbrev pub read_signed : Bool → Text → Option Port
read_signed negative [] = none
read_signed negative (c ∷ s) =
    if is_digit c
    then some (record { is_negative = negative; size = read_digits 0 (c ∷ s) })
    else none

abbrev pub read_sign : Text → Option Port
read_sign [] = none
read_sign (c ∷ s) =
    if c == b'-'
    then read_signed true s
    else if c == b'+'
    then read_signed false s
    else read_signed false (c ∷ s)

-- `parseInt(s, 10)`; none is `NaN`
unfoldable pub parse_int : Text → Option Port
parse_int s = read_sign (trim_start s)

abbrev pub address_of : Text → Text → Port → Option Port → ServerAddress
address_of cleaned host default none = record { host = cleaned; port = default }
address_of cleaned host default (some p) = record { host = host; port = p }

abbrev pub split_port : Text → Port → Option (Text × Text) → ServerAddress
split_port cleaned default none = record { host = cleaned; port = default }
split_port cleaned default (some (host, rest)) = address_of cleaned host default (parse_int rest)

unfoldable pub parse_server_address : Text → Port → ServerAddress
parse_server_address addr default =
    let cleaned = without_path (without_scheme (trim_end (trim_start addr))) in
    split_port cleaned default (split_last cleaned)
