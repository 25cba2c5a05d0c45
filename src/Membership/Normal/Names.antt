-- ===== src/Membership/Normal/Names.antt =====
-- A normalized name is left as it is by a second normalization.
use mathlib.Core.List.{reverse, reverse_aux, reverse-reverse}
use xtap_pool.Base.{
  All, All-append, Bool-cases, Text, [], all, arith, false, inl, inr, is_name, is_name_char,
  is_space, lower_char, ok, refl, to_lower, trim, trim_start, true, ℕ, ◌∷◌, ◌≡◌,
}
use xtap_pool.Membership.Normal.{normalize_org_name, normalize_username}

-- Names hold no space.
name_char-not_space : (c : ℕ) → is_name_char c ≡ true → is_space c ≡ false
unfolding is_space
name_char-not_space c h = ground arith

abbrev NoSpace : Text → Type 0
NoSpace = All (λ c. is_space c ≡ false)

is_name-NoSpace : (s : Text) → is_name s ≡ true → NoSpace s
is_name-NoSpace [] h = tt
is_name-NoSpace (c ∷ s) h = (name_char-not_space c (ground arith), rest s (ground arith))
  where
    rest : (t : Text) → all is_name_char t ≡ true → NoSpace t
    rest [] k = tt
    rest (a ∷ t) k = (name_char-not_space a (ground arith), rest t (ground arith))

trim_start_of_NoSpace : (s : Text) → NoSpace s → trim_start s ≡ s
unfolding trim_start
trim_start_of_NoSpace [] h = refl
trim_start_of_NoSpace (c ∷ s) h = rw (h.0)

NoSpace-reverse_aux : (s t : Text) → NoSpace s → NoSpace t → NoSpace (reverse_aux s t)
NoSpace-reverse_aux [] t h k = k
NoSpace-reverse_aux (c ∷ s) t h k = NoSpace-reverse_aux s (c ∷ t) h.1 (h.0, k)

trim_of_NoSpace : (s : Text) → NoSpace s → trim s ≡ s
unfolding trim
trim_of_NoSpace s h =
    rw
      (trim_start_of_NoSpace s h, trim_start_of_NoSpace (reverse s) (NoSpace-reverse_aux s [] h tt))
      (reverse-reverse s)

-- Characters that lower case leaves alone; lower case gives only such.
abbrev IsLower : Text → Type 0
IsLower = All (λ c. lower_char c ≡ c ∷ [])

lower_char-IsLower : (c : ℕ) → IsLower (lower_char c)
unfolding lower_char
lower_char-IsLower c = ground arith

to_lower-IsLower : (s : Text) → IsLower (to_lower s)
unfolding to_lower
to_lower-IsLower [] = tt
to_lower-IsLower (c ∷ s) =
    All-append _ (lower_char c) (to_lower s) (lower_char-IsLower c) (to_lower-IsLower s)

to_lower_of_IsLower : (s : Text) → IsLower s → to_lower s ≡ s
unfolding to_lower
to_lower_of_IsLower [] h = refl
to_lower_of_IsLower (c ∷ s) h = rw (h.0, to_lower_of_IsLower s h.1)

lowered_name : (s : Text) → is_name (to_lower s) ≡ true → to_lower (trim (to_lower s)) ≡ to_lower s
lowered_name s h =
    rw (trim_of_NoSpace (to_lower s) (is_name-NoSpace (to_lower s) h))
      (to_lower_of_IsLower (to_lower s) (to_lower-IsLower s))

pub normalize_username_idempotent :
    (u n : Text) → normalize_username u ≡ ok n → normalize_username n ≡ ok n
unfolding normalize_username
normalize_username_idempotent u n h = elim (Bool-cases (is_name (to_lower (trim u)))) [
  | inr bad ↦ absurd (ground arith)
  | inl good ↦
      let e : to_lower (trim u) ≡ n = ground arith in
      let good' : is_name n ≡ true = rw e at good in
      let same : to_lower (trim n) ≡ n = rw (← e) (lowered_name (trim u) good) in rw (same, good')
]

pub normalize_org_name_idempotent :
    (u n : Text) → normalize_org_name u ≡ ok n → normalize_org_name n ≡ ok n
unfolding normalize_org_name
normalize_org_name_idempotent u n h = elim (Bool-cases (is_name (to_lower (trim u)))) [
  | inr bad ↦ absurd (ground arith)
  | inl good ↦
      let e : to_lower (trim u) ≡ n = ground arith in
      let good' : is_name n ≡ true = rw e at good in
      let same : to_lower (trim n) ≡ n = rw (← e) (lowered_name (trim u) good) in rw (same, good')
]
