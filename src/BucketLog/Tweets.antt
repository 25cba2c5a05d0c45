-- ===== src/BucketLog/Tweets.antt =====
-- `appendTweets` of `BucketLog`, with `tweetPathFor` and `tweetAppends` (space/src/bucket-log.ts).
use mathlib.Core.List.{append-nil, append_assoc}
use mathlib.Core.Path.{subst}
use xtap_pool.Base.{
  >>=-eq-ok, Bool, Bool-cases, DateTimes, List, Option, Result, Text, [], ap, drop, eq_of_==, err,
  false, filter, get, get-put, inl, inr, keys, lit, map, nat_eq, none, ok, ok-injective, put, refl,
  some, sym, take, text_eq, then_in, true, unique, unique-keys-put, ℕ, ◌++◌, ◌==◌, ◌>>=◌, ◌∙◌, ◌∷◌,
  ◌≡◌,
}
use xtap_pool.BucketLog.{BucketLog, Client, Platform}
use xtap_pool.BucketLog.Writes.{commit_batch}

-- What the appends read of a `PooledTweet`, and its JSON.
pub record Tweet : Type 0 where
  pub contributed_by : Text
  pub captured_at : Text
  pub json : Text

abbrev pub or_empty : Option (List Text) → List Text
or_empty none = []
or_empty (some lines) = lines

abbrev pub lines_at : List (Text × List Text) → Text → List Text
lines_at m p = or_empty (get m p)

abbrev pub is_at : Text → Result Text Text → Bool
is_at p (ok q) = q == p
is_at p (err e) = false

module _ (platform : Platform) where
  open platform use {date_iso}

  -- `tweetPathFor`.
  unfoldable pub tweet_path_for : Text → Text → Result Text Text
  tweet_path_for contributor captured_at = do
    iso ← date_iso captured_at
    let day = take 10 iso
    ok (
        lit "data/"
        ++ (contributor
            ++ (lit "/"
                ++ (take 4 day
                    ++ (lit "/"
                        ++ (take 2 (drop 5 day) ++ (lit "/tweets-" ++ (day ++ lit ".jsonl"))))))))

  abbrev pub path_of : Tweet → Result Text Text
  path_of t = tweet_path_for t.contributed_by t.captured_at

  -- The loop of `tweetAppends`, with the lines of each path so far.
  unfoldable pub append_tweets_to :
      List (Text × List Text) → List Tweet → Result Text (List (Text × List Text))
  unfolding tweet_path_for get put
  append_tweets_to m [] = ok m
  append_tweets_to m (t ∷ tweets) = do
    p ← path_of t
    append_tweets_to (put m p (lines_at m p ++ t.json ∷ [])) tweets

  -- `tweetAppends`.
  unfoldable pub tweet_appends : List Tweet → Result Text (List (Text × List Text))
  unfolding append_tweets_to
  tweet_appends = append_tweets_to []

  -- `appendTweets`.
  unfoldable pub append_tweets :
      ⦃d : DateTimes⦄ (client : Client)
      → BucketLog client.Store
      → ℕ
      → Text
      → List Tweet
      → BucketLog client.Store × Result Text Text
  unfolding tweet_appends commit_batch
  append_tweets client l now uuid tweets =
      then_in (l, tweet_appends tweets)
        (λ l₁ appends. commit_batch platform client l₁ now uuid appends [])

  -- The JSON of the tweets of one path, in order.
  abbrev pub lines_of : Text → List Tweet → List Text
  lines_of p tweets = map (λ (t : Tweet). t.json) (filter (λ t. is_at p (path_of t)) tweets)

  append_tweets_lem :
      (tweets : List Tweet) (m m' : List (Text × List Text)) (p : Text)
      → append_tweets_to m tweets ≡ ok m'
      → lines_at m' p ≡ lines_at m p ++ lines_of p tweets
  unfolding append_tweets_to
  append_tweets_lem [] m m' p h =
      ap (λ x. lines_at x p) (sym (ok-injective h)) ∙ sym (append-nil (lines_at m p))
  append_tweets_lem (t ∷ tweets) m m' p h =
      let (q, at, h₁) = >>=-eq-ok (path_of t) _ h in
      let next = put m q (lines_at m q ++ t.json ∷ []) in
      let rest = append_tweets_lem tweets next m' p h₁ in
      let here = get-put m q (lines_at m q ++ t.json ∷ []) p in
      rest ∙ elim (Bool-cases (q == p)) [
        | inl same ↦
            let e = eq_of_== q p same in
            rw (here, at, same)
              (append_assoc (lines_at m q) (t.json ∷ []) (lines_of p tweets)
                ∙ ap (λ k. lines_at m k ++ t.json ∷ lines_of p tweets) e)
        | inr other ↦ rw (here, at, other) refl
      ]

  append_tweets_keys :
      (tweets : List Tweet) (m m' : List (Text × List Text))
      → unique (keys m) ≡ true
      → append_tweets_to m tweets ≡ ok m'
      → unique (keys m') ≡ true
  unfolding append_tweets_to
  append_tweets_keys [] m m' u h =
      subst (λ (x : List (Text × List Text)). unique (keys x) ≡ true) (ok-injective h) u
  append_tweets_keys (t ∷ tweets) m m' u h =
      let (q, _, h₁) = >>=-eq-ok (path_of t) _ h in
      let lines = lines_at m q ++ t.json ∷ [] in
      append_tweets_keys tweets (put m q lines) m' (unique-keys-put m q lines u) h₁

  -- Where the appends are given, their paths differ, as a segment wants them, and the lines of each
  -- path are the JSON of the tweets whose path it is, in the order of the input.
  pub tweet_appends-lines :
      (tweets : List Tweet) (appends : List (Text × List Text)) (p : Text)
      → tweet_appends tweets ≡ ok appends
      → (unique (keys appends) ≡ true) × (lines_at appends p ≡ lines_of p tweets)
  unfolding tweet_appends get keys
  tweet_appends-lines tweets appends p h =
      (append_tweets_keys tweets [] appends refl h, append_tweets_lem tweets [] appends p h)
