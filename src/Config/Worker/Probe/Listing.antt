-- ===== src/Config/Worker/Probe/Listing.antt =====
-- The probe and the parser of its answer.
use nacos_sdk_nodejs.Prelude.{
  ℕ, ◌≡◌, refl, ap, ◌∙◌, Bool, true, false, not, ◌&&◌, some, Text, List, [], ◌∷◌, ◌++◌,
  if◌then◌else◌, ◌==◌, is_empty, get_or_else, arith, inl, inr, Bool-cases,
}
use nacos_sdk_nodejs.Prelude.Dict.{Dict}
use nacos_sdk_nodejs.Config.ServerList.{split_on}
use nacos_sdk_nodejs.Config.Worker.Subscriptions.{Item}
use nacos_sdk_nodejs.Config.Worker.Probe.{
  entry, tenant_part, probe, parse_line, parse_lines, parse_update,
}

-- The character does not occur in the text.
unfoldable pub lacks : ℕ → Text → Bool
lacks c [] = true
lacks c (x ∷ xs) = not (x == c) && lacks c xs

-- An item whose names hold neither separator, and whose md5 holds no line separator.
abbrev pub is_clean : Item → Bool
is_clean item =
    lacks 1 item.data_id
    && (lacks 2 item.data_id
        && (lacks 1 item.group && (lacks 2 item.group && lacks 1 (get_or_else [] item.md5))))

unfoldable pub all_clean : Dict Item → Bool
all_clean [] = true
all_clean ((k, item) ∷ items) = is_clean item && all_clean items

-- The names of the items that do not follow a failover file.
unfoldable pub watched : Dict Item → List (Text × Text)
watched [] = []
watched ((k, item) ∷ items) =
    if item.use_failover then watched items else (item.data_id, item.group) ∷ watched items

split-cons : (c : ℕ) (t : Text) → (s : Text) × (ss : List Text) × (split_on c t ≡ s ∷ ss)
unfolding split_on
split-cons c [] = ([], [], refl)
split-cons c (x ∷ t) =
    let (s, ss, e) = split-cons c t in
    elim (Bool-cases (x == c)) [
      | inl h ↦ ([], s ∷ ss, rw (e, h) refl)
      | inr h ↦ (x ∷ s, ss, rw (e, h) refl)
    ]

split-append : (c : ℕ) (s t : Text) → lacks c s ≡ true → split_on c (s ++ c ∷ t) ≡ s ∷ split_on c t
unfolding split_on lacks
split-append c [] t h =
    let (s, ss, e) = split-cons c t in
    let same : (c == c) ≡ true = ground arith in rw e (rw same refl)
split-append c (x ∷ s) t h =
    let other : (x == c) ≡ false = ground arith in
    rw (split-append c s t (ground arith)) (rw other refl)

lacks-append : (c : ℕ) (s t : Text) → lacks c s ≡ true → lacks c t ≡ true → lacks c (s ++ t) ≡ true
unfolding lacks
lacks-append c [] t h g = g
lacks-append c (x ∷ s) t h g = ground (arith, lacks-append c s t)

parse-entry :
    (tenant : Text) (item : Item)
    → lacks 2 item.data_id ≡ true
    → lacks 2 item.group ≡ true
    → parse_line (entry tenant item) ≡ some (item.data_id, item.group)
parse-entry tenant item h g =
    let m = get_or_else [] item.md5 ++ tenant_part tenant in
    let words =
      split-append 2 item.data_id (item.group ++ 2 ∷ m) h
      ∙ ap (λ ws. item.data_id ∷ ws) (split-append 2 item.group m g) in
    rw (not_empty item.data_id (item.group ++ 2 ∷ m), words) refl
  where
    not_empty : (s t : Text) → is_empty (s ++ 2 ∷ t) ≡ false
    not_empty [] t = refl
    not_empty (x ∷ s) t = refl

entry-lacks :
    (tenant : Text) (item : Item)
    → is_clean item ≡ true
    → lacks 1 tenant ≡ true
    → lacks 1 (entry tenant item) ≡ true
unfolding lacks
entry-lacks [] item h t = lacks-append 1 item.data_id _ (ground arith) (
    lacks-append 1 item.group _ (ground arith)
      (lacks-append 1 (get_or_else [] item.md5) [] (ground arith) refl))
entry-lacks (c ∷ cs) item h t = lacks-append 1 item.data_id _ (ground arith) (
    lacks-append 1 item.group _ (ground arith)
      (lacks-append 1 (get_or_else [] item.md5) (2 ∷ c ∷ cs) (ground arith) t))

-- What the parser of the answer reads from a probe is, in their order, the names of exactly the items
-- that do not follow a failover file, where the names hold no separators, and the md5s and the
-- tenant hold no line separator.
pub parse_update-probe :
    (tenant : Text) (items : Dict Item)
    → all_clean items ≡ true
    → lacks 1 tenant ≡ true
    → parse_update (probe tenant items) ≡ watched items
unfolding parse_update probe watched all_clean parse_lines split_on
parse_update-probe tenant [] h t = refl
parse_update-probe tenant ((k, item) ∷ items) h t =
    let rest = parse_update-probe tenant items (ground arith) t in
    elim (Bool-cases item.use_failover) [
      | inl u ↦ rw u rest
      | inr u ↦
          rw
            (
              u,
              split-append 1 (entry tenant item) (probe tenant items)
                  (entry-lacks tenant item (ground arith) t),
            )
            (rw (parse-entry tenant item (ground arith) (ground arith))
              (ap (λ us. (item.data_id, item.group) ∷ us) rest))
    ]
