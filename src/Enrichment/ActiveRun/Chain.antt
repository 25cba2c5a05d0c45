-- ===== src/Enrichment/ActiveRun/Chain.antt =====
-- What the activation history of an active run is.
use mathlib.Core.Option
use xtap_pool.Base.{
  All, DateTimes, List, Option, Text, [], keys, map, nat_eq, none, ok, some, text_eq, ℕ, ◌+◌, ◌∷◌,
  ◌≡◌,
}
use xtap_pool.Enrichment.ActiveRun.{ActiveRun, Claim, Platform, activation_key}
use xtap_pool.Enrichment.ActiveRun.Resolve.{fulfilled, load_claim, verify_plan}
use xtap_pool.Enrichment.Checkpoint.{ObjectStore}
use xtap_pool.Enrichment.RunPlan.{PlanDigest}

-- The generations count up from a number.
abbrev pub IsNumbered : ℕ → List ActiveRun → Type 0
IsNumbered n [] = Unit
IsNumbered n (r ∷ rs) = (r.generation ≡ n) × IsNumbered (n + 1) rs

-- Each run names the plan of the one before it.
abbrev pub IsLinked : Option Text → List ActiveRun → Type 0
IsLinked previous [] = Unit
IsLinked previous (r ∷ rs) = (r.previous_plan_sha256 ≡ previous) × IsLinked (some r.plan_sha256) rs

abbrev pub last_or : ActiveRun → List ActiveRun → ActiveRun
last_or r [] = r
last_or r (x ∷ xs) = last_or x xs

module _ ⦃d : DateTimes⦄ (sha : PlanDigest) (platform : Platform) (store : ObjectStore) where
  open store use {Store, read, list}

  abbrev runs_of : List Claim → List ActiveRun
  runs_of claims = map (λ (c : Claim). c.run) claims

  abbrev pub operation : Store → Text × ℕ → Option Claim
  operation s k = fulfilled (load_claim sha platform store s k)

  abbrev pub IsVerified : Store → ActiveRun → Type 0
  IsVerified s r = verify_plan sha platform store s r ≡ ok tt

  abbrev pub key_of : ActiveRun → Text
  key_of r = activation_key r.generation

  abbrev digest_of : Option Claim → Option Text
  digest_of none = none
  digest_of (some c) = some c.run.plan_sha256

  abbrev last_claim_or : Option Claim → List Claim → Option Claim
  last_claim_or previous [] = previous
  last_claim_or previous (c ∷ cs) = last_claim_or (some c) cs

  -- The runs that a listing of the history holds, and the one that is active.
  pub record IsHistory (s : Store) (keys : List Text) (active : ActiveRun) : Type 0 where
    pub first : ActiveRun
    pub rest : List ActiveRun
    pub named : keys ≡ map key_of (first ∷ rest)
    pub counted : IsNumbered 1 (first ∷ rest)
    pub chained : IsLinked none (first ∷ rest)
    pub verified : All (IsVerified s) (first ∷ rest)
    pub is_last : active ≡ last_or first rest
