-- ===== src/Membership/Normal/Laws/Trimming.antt =====
-- Trimming a trimmed text changes nothing.
use mathlib.Core.List.{reverse, reverse-reverse, reverse-cons, reverse-append}
use xtap_pool.Base.{
  Bool, Text, [], arith, false, is_space, not, refl, trim, trim_start, true, ℕ, ◌++◌, ◌∷◌, ◌≡◌,
}

abbrev no_space_head : Text → Bool
no_space_head [] = true
no_space_head (c ∷ s) = not (is_space c)

trim_start_head : (s : Text) → no_space_head (trim_start s) ≡ true
unfolding trim_start
trim_start_head [] = refl
trim_start_head (c ∷ s) = ground (arith, trim_start_head s)

trim_start_of_head : (s : Text) → no_space_head s ≡ true → trim_start s ≡ s
unfolding trim_start
trim_start_of_head [] h = refl
trim_start_of_head (c ∷ s) h = ground arith

trim_start-last :
    (s : Text) (c : ℕ) → is_space c ≡ false → trim_start (s ++ c ∷ []) ≡ trim_start s ++ c ∷ []
unfolding trim_start
trim_start-last [] c h = rw h
trim_start-last (d ∷ s) c h = ground (arith, trim_start-last s c h)

-- Cutting the end leaves a start without space.
end_cut_head :
    (s : Text) → no_space_head s ≡ true → no_space_head (reverse (trim_start (reverse s))) ≡ true
unfolding trim_start
end_cut_head [] h = refl
end_cut_head (c ∷ s) h =
    let cut = trim_start-last (reverse s) c (ground arith) in
    let e : reverse (c ∷ s) ≡ reverse s ++ c ∷ [] = reverse-cons c s in
    rw (e, cut, reverse_last (trim_start (reverse s)) c) h
  where
    reverse_last : (t : Text) (d : ℕ) → reverse (t ++ d ∷ []) ≡ d ∷ reverse t
    reverse_last t d = reverse-append t (d ∷ [])

pub trim_idempotent : (s : Text) → trim (trim s) ≡ trim s
unfolding trim
trim_idempotent s =
    let u = trim_start s in
    let v = trim_start (reverse u) in
    rw (
      trim_start_of_head (reverse v) (end_cut_head u (trim_start_head s)),
      reverse-reverse v,
      trim_start_of_head v (trim_start_head (reverse u)),
    )
