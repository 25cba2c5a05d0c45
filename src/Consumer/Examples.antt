-- ===== src/Consumer/Examples.antt =====
-- A pool of one child, a page of two changes, and a cursor.
use xtap_pool.Base.{
  Text, [], err, false, is_sha256, lit, none, ok, refl, replicate, some, text_beq, true, ◌++◌, ◌+◌,
  ◌∷◌, ◌≡◌,
}
use xtap_pool.Consumer.Cursor.{
  ConsumerCursor, Dates, Platform, check_age, content, cursor_ok, decode, encode, expired_cursor,
  page_lease_ms, position_ok, split_dot, verified, verified_body,
}
use xtap_pool.Consumer.Cursor.Signed.{IsSigned, decode-IsSigned, decode-encode}
use xtap_pool.Consumer.Page.{page_builder}
use xtap_pool.Consumer.Page.Bounds.{IsWithin, attempts, page-IsWithin}
use xtap_pool.Consumer.Workers.{abort_of, create, message_from, result, run_task}
use xtap_pool.Consumer.Workers.Sound.{IsSound, after, workers-IsSound}

-- Task 1 takes the child and answers, task 2 takes it again and is aborted, and task 3 finds no room.
workers-IsSound_example : IsSound (
    after
      (run_task 1 false
        ∷ message_from 0 (result 5)
        ∷ run_task 2 false
        ∷ abort_of 2
        ∷ run_task 3 false
        ∷ [])
      (create 1))
workers-IsSound_example = workers-IsSound 1 (
    run_task 1 false
    ∷ message_from 0 (result 5)
    ∷ run_task 2 false
    ∷ abort_of 2
    ∷ run_task 3 false
    ∷ [])

page-IsWithin_example : IsWithin (
    attempts
      (lit "{}" ∷ lit "[]" ∷ lit "1" ∷ [])
      (record { limit = 2; changes = []; bytes = 8192 }))
unfolding page_builder
page-IsWithin_example =
    page-IsWithin 2 (record { limit = 2; changes = []; bytes = 8192 })
      (lit "{}" ∷ lit "[]" ∷ lit "1" ∷ []) refl

instance abbrev epoch : Dates
epoch = record { is_utc = λ _. true; parse = λ _. 1000 }

abbrev cursor : ConsumerCursor
cursor = record {
  schema_version = 1;
  target = replicate 64 b'a';
  base = some (replicate 64 b'b');
  started_at = lit "1970-01-01T00:00:01Z";
  position = content none;
  metadata_sent = none;
  privacy = none;
  reconciliation = none;
}

-- JSON that says this cursor only, in letters, and a signature of 43 letters.
abbrev platform : Platform
platform = record {
  json = λ c. lit "cursor";
  parse_json = λ s. some cursor;
  hmac = λ key text. replicate 43 b'A';
  to_base64url = λ s. s;
  of_base64url = λ s. s;
}

abbrev encoded_cursor : Text
encoded_cursor = lit "cursor." ++ replicate 43 b'A'

decode-encode_example : decode platform (replicate 32 b'k') 2000 encoded_cursor ≡ ok cursor
unfolding encode cursor_ok position_ok check_age is_sha256
decode-encode_example =
    decode-encode platform (replicate 32 b'k') 2000 cursor encoded_cursor
      (record {
        parsed = refl;
        body_back = refl;
        body_filled = refl;
        body_alphabet = refl;
        mac_back = refl;
        mac_length = refl;
        mac_alphabet = refl;
      })
      refl

decode-IsSigned_example : IsSigned platform (replicate 32 b'k') 2000 encoded_cursor cursor
unfolding decode verified_body verified split_dot text_beq cursor_ok position_ok check_age is_sha256
decode-IsSigned_example =
    decode-IsSigned platform (replicate 32 b'k') 2000 encoded_cursor cursor refl

-- A page is leased for two days.
expired_page :
    decode platform (replicate 32 b'k') (1000 + page_lease_ms) encoded_cursor ≡ err expired_cursor
unfolding decode verified_body verified split_dot text_beq cursor_ok position_ok check_age is_sha256
expired_page = refl
