-- ===== src/BucketLog/Keys.antt =====
-- The names of the log: the patterns of keys, paths and identifiers in space/src/bucket-log.ts.
use xtap_pool.Base.{
  Bool, List, Option, Result, Text, [], contains, drop, eqb, err, false, guard, if◌then◌else◌,
  in_range, is_digit, is_hex, is_some, lit, map, nat_eq, none, not, ok, replicate, some,
  starts_with, strip, take, text_eq, true, ℕ, ◌&&◌, ◌++◌, ◌||◌, ◌∷◌,
}
use xtap_pool.BucketLog.{
  SourceKind, attempt, enrichment, raw_config_paths, receipt, registry, tweet,
}

-- A pattern without repetition: a test for each character.
unfoldable pub fits : List (ℕ → Bool) → Text → Bool
fits [] [] = true
fits [] (c ∷ s) = false
fits (p ∷ ps) [] = false
fits (p ∷ ps) (c ∷ s) = p c && fits ps s

abbrev pub exactly : Text → List (ℕ → Bool)
exactly s = map eqb s

abbrev pub digits : ℕ → List (ℕ → Bool)
digits n = replicate n is_digit

abbrev pub hexes : ℕ → List (ℕ → Bool)
hexes n = replicate n is_hex

abbrev pub is_hex_or_dash : ℕ → Bool
is_hex_or_dash c = is_hex c || eqb c b'-'

abbrev pub dash : List (ℕ → Bool)
dash = exactly (lit "-")

abbrev pub slash : List (ℕ → Bool)
slash = exactly (lit "/")

-- `UUID`.
abbrev pub uuid_pattern : List (ℕ → Bool)
uuid_pattern =
    hexes 8
    ++ (dash
        ++ (hexes 4
            ++ (dash
                ++ (in_range b'1' b'8' ∷ hexes 3
                    ++ (dash
                        ++ ((λ c. eqb c b'8' || eqb c b'9' || eqb c b'a' || eqb c b'b') ∷ hexes 3
                            ++ (dash ++ hexes 12)))))))

unfoldable pub is_uuid : Text → Bool
unfolding fits
is_uuid = fits uuid_pattern

abbrev pub segment_prefix : Text
segment_prefix = lit "v1/segments"

abbrev pub snapshot_prefix : Text
snapshot_prefix = lit "v1/snapshots"

-- The first alternative of `SEGMENT_KEY`.
abbrev pub categories : List Text
categories =
    lit "tweet"
    ∷ lit "enrichment"
    ∷ lit "attempt"
    ∷ lit "registry"
    ∷ lit "receipt"
    ∷ lit "config"
    ∷ lit "mixed"
    ∷ []

-- `SEGMENT_KEY` behind the category.
abbrev pub key_pattern : List (ℕ → Bool)
key_pattern =
    digits 4
    ++ (slash
        ++ (digits 2
            ++ (slash
                ++ (digits 2
                    ++ (slash
                        ++ (digits 13
                            ++ (dash
                                ++ (replicate 36 is_hex_or_dash
                                    ++ (dash ++ (hexes 64 ++ exactly (lit ".json.gz")))))))))))

unfoldable pub fitting : Option Text → Option Text
unfolding fits
fitting none = none
fitting (some s) = if fits key_pattern s then some s else none

-- What `SEGMENT_KEY` matches behind the category, for one of the categories.
unfoldable pub match_key : List Text → Text → Option Text
unfolding strip
match_key [] key = none
match_key (c ∷ cs) key =
    let rest = match_key cs key in
    let here = fitting (strip (segment_prefix ++ (lit "/" ++ (c ++ lit "/"))) key) in
    if is_some here then here else rest

unfoldable pub segment_key : Text → Option Text
unfolding match_key
segment_key = match_key categories

-- The groups of a match: day, time, transaction and digest.
abbrev pub key_day : Text → Text
key_day m = take 4 m ++ (lit "-" ++ (take 2 (drop 5 m) ++ (lit "-" ++ take 2 (drop 8 m))))

abbrev pub key_time : Text → Text
key_time m = take 13 (drop 11 m)

abbrev pub key_transaction : Text → Text
key_transaction m = take 36 (drop 25 m)

abbrev pub key_digest : Text → Text
key_digest m = take 64 (drop 62 m)

abbrev pub dated : Text → Text → List (ℕ → Bool)
dated prefix suffix =
    digits 4
    ++ (slash
        ++ (digits 2
            ++ (slash
                ++ (exactly prefix
                    ++ (digits 4
                        ++ (dash ++ (digits 2 ++ (dash ++ (digits 2 ++ exactly suffix)))))))))

-- Behind `[^/]+`, which takes what comes before the first slash.
unfoldable pub behind_segment : Text → Option Text
behind_segment [] = none
behind_segment (c ∷ s) = let rest = behind_segment s in if eqb c b'/' then some (c ∷ s) else rest

unfoldable pub fits_behind : List (ℕ → Bool) → Option Text → Bool
unfolding fits
fits_behind p none = false
fits_behind p (some s) = fits p s

-- `/^data\/[^/]+\/.../`: at least one character before the slash.
unfoldable pub is_tweet_path : Option Text → Bool
unfolding behind_segment
is_tweet_path none = false
is_tweet_path (some s) =
    not (starts_with s (lit "/"))
    && fits_behind (slash ++ dated (lit "tweets-") (lit ".jsonl")) (behind_segment s)

-- `sourceKind`.
unfoldable pub source_kind : Text → Result Text SourceKind
unfolding strip behind_segment starts_with fits
source_kind p =
    if is_tweet_path (strip (lit "data/") p)
    then ok tweet
    else if fits_behind (dated (lit "enrichment-") (lit ".jsonl")) (strip (lit "enrichment/") p)
    then ok enrichment
    else if fits_behind (dated (lit "attempts-") (lit ".jsonl"))
        (strip (lit "enrichment/attempts/") p)
    then ok attempt
    else if fits_behind (dated (lit "registry-") (lit ".jsonl"))
        (strip (lit "enrichment/registry/") p)
    then ok registry
    else if fits
        (exactly (lit "enrichment/receipts/")
          ++ (digits 4 ++ (dash ++ (digits 2 ++ (dash ++ (digits 2 ++ exactly (lit ".jsonl")))))))
        p
    then ok receipt
    else err (lit "unsupported Bucket log source: " ++ p)

-- `assertConfigPath`.
unfoldable pub assert_config_path : Text → Result Text (Unit {0})
assert_config_path p =
    guard (contains raw_config_paths p) (lit "unsupported Bucket configuration path: " ++ p)
