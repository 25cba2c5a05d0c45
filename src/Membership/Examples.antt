-- ===== src/Membership/Examples.antt =====
-- Runs on a pool with an administrator, a member and a bootstrap administrator.
use xtap_pool.Base.{
  List, Result, Text, [], err, false, lit, none, ok, refl, some, text_beq, true, ◌∷◌, ◌≡◌,
}
use xtap_pool.Storage.{StorageLog}
use xtap_pool.Storage.Memory.{memory}
use xtap_pool.Membership.Normal.{
  PoolConfig, normalize_config, normalize_username, normalize_users, thrown,
}
use xtap_pool.Membership.Normal.Laws.{normalize_config-IsNormal, normalize_users-IsUserList}
use xtap_pool.Membership.Pool.{
  PoolMembership, Request, access_for, add_member, admin, bootstrap, bucket, is_admin, is_member,
  remove_admin,
}
use xtap_pool.Membership.Pool.Sets.{IsValid}
use xtap_pool.Membership.World.{Codec, World, load, mutate, pool_config_path}
use xtap_pool.Membership.World.Invariant.{
  load-IsValid, mutate-IsValid, mutate_error, run, run_keeps_bootstrap_admins,
}
use xtap_pool.Membership.World.Effects.{IsAdded, Returns, add_member_effect}

abbrev config : PoolConfig
config = record {
  version = 1;
  admins = lit "alice" ∷ [];
  members = lit "alice" ∷ lit "bob" ∷ [];
  member_orgs = record { name = lit "org"; sub = lit "o-1"; display_name = none } ∷ [];
  updated_at = lit "2026-01-01T00:00:00.000Z";
  updated_by = some (lit "alice");
}

abbrev pool : PoolMembership
pool = record {
  config = config;
  bootstrap_admins = lit "root" ∷ [];
  source = bucket;
  config_error = none;
  config_error_retryable = false;
}

abbrev codec : Codec
codec = record {
  encode = λ c. c.updated_at;
  decode = λ raw. err (lit "no JSON");
  schema_message = lit "invalid";
}

abbrev world : World memory codec
world = record { pool = pool; log = [] }

-- A world whose log refuses every write.
abbrev broken : StorageLog
broken = record {
  Log = Unit {0};
  read_text = λ l path. err (lit "offline");
  write_text = λ l path content. (l, err (lit "offline"));
  read_after_write = λ l l' path content h. cc;
}

abbrev cut_off : World broken codec
cut_off = record { pool = pool; log = tt }

config_fixed : normalize_config config ≡ ok config
unfolding normalize_config
config_fixed = refl

root_fixed : normalize_users (lit "root" ∷ []) ≡ ok (lit "root" ∷ [])
unfolding normalize_users
root_fixed = refl

pool-IsValid : IsValid pool
pool-IsValid = record {
  normal = normalize_config-IsNormal config config config_fixed;
  bootstrap = normalize_users-IsUserList (lit "root" ∷ []) (lit "root" ∷ []) root_fixed;
}

carol_name : normalize_username (lit " Carol") ≡ ok (lit "carol")
unfolding normalize_username
carol_name = refl

bob_name : normalize_username (lit "bob") ≡ ok (lit "bob")
unfolding normalize_username
bob_name = refl

alice_name : normalize_username (lit "Alice") ≡ ok (lit "alice")
unfolding normalize_username
alice_name = refl

mutate-IsValid_example :
    IsValid (mutate memory codec world (add_member (lit " Carol")) (lit "alice") (lit "now")).0.pool
mutate-IsValid_example =
    mutate-IsValid memory codec world pool-IsValid (add_member (lit " Carol")) (lit "alice")
      (lit "now")

refused :
    (mutate broken codec cut_off (add_member (lit "carol")) (lit "alice") (lit "now")).1
    ≡ err (thrown (lit "offline"))
unfolding mutate normalize_username normalize_users normalize_config
refused = refl

mutate_error_example :
    (mutate broken codec cut_off (add_member (lit "carol")) (lit "alice") (lit "now")).0.pool
    ≡ cut_off.pool
mutate_error_example =
    mutate_error broken codec cut_off pool-IsValid (add_member (lit "carol")) (lit "alice")
      (lit "now") (thrown (lit "offline")) refused

abbrev loaded_pool : PoolMembership
loaded_pool = record {
  config = record {
    version = 1;
    admins = lit "alice" ∷ [];
    members = lit "alice" ∷ lit "bob" ∷ [];
    member_orgs = [];
    updated_at = lit "now";
    updated_by = none;
  };
  bootstrap_admins = lit "alice" ∷ [];
  source = bootstrap;
  config_error = none;
  config_error_retryable = false;
}

loads : load memory codec (lit "Alice" ∷ lit "bob" ∷ []) [] (lit "now") [] ≡ ok loaded_pool
unfolding load normalize_users normalize_config
loads = refl

load-IsValid_example : IsValid loaded_pool
load-IsValid_example =
    load-IsValid memory codec (lit "Alice" ∷ lit "bob" ∷ []) [] (lit "now") [] loaded_pool loads

abbrev requests : List (Request × Text × Text)
requests =
    (remove_admin (lit "alice"), lit "root", lit "t1")
    ∷ (remove_admin (lit "root"), lit "bob", lit "t2")
    ∷ []

root_name : normalize_username (lit "Root") ≡ ok (lit "root")
unfolding normalize_username
root_name = refl

run_keeps_bootstrap_admins_example :
    IsValid (run memory codec world requests).pool
    × (is_admin (run memory codec world requests).pool (lit "Root") ≡ ok true)
    × (is_member (run memory codec world requests).pool (lit "Root") ≡ ok true)
    × (access_for (run memory codec world requests).pool (lit "Root") [] ≡ ok (some admin))
unfolding text_beq
run_keeps_bootstrap_admins_example =
    run_keeps_bootstrap_admins memory codec world requests (lit "Root") (lit "root") [] pool-IsValid
      root_name refl

abbrev written :
    (content : Text)
    → (l : List (Text × Text)) × (Path
        (List (Text × Text) × Result Text (Unit {0}))
        (memory.write_text [] pool_config_path content)
        (l, ok tt))
written content = ((pool_config_path, content) ∷ [], refl)

add_member_effect_example :
    Returns memory codec world
      (lit "Alice")
      (lit "alice")
      (lit "now")
      alice_name
      pool-IsValid
      refl
      written
      (add_member (lit " Carol"))
      (λ w₁. IsAdded (lit "carol") pool w₁.pool)
add_member_effect_example =
    add_member_effect memory codec world (lit "Alice") (lit "alice") (lit "now") alice_name
      pool-IsValid refl written (lit " Carol") (lit "carol") carol_name
