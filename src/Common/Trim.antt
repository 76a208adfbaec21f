-- ===== src/Common/Trim.antt =====
-- strings.TrimSpace and bytes.TrimSpace on UTF-8: the code points with the property White_Space.
use mathlib.Core.List.{reverse}
use near_real_time_hybrid_se.Common.{
  ℕ, ◌-◌, ◌≡◌, refl, Bool, true, false, ◌&&◌, ◌||◌, ◌==◌, [], ◌∷◌, leb, if◌then◌else◌,
}
use near_real_time_hybrid_se.Common.Bytes.{Bytes}

abbrev ascii_space : ℕ → Bool
ascii_space c = (leb 9 c && leb c 13) || (c == 32)

-- U+0085 and U+00A0.
abbrev latin_space : ℕ → ℕ → Bool
latin_space a b = (a == 0xC2) && ((b == 0x85) || (b == 0xA0))

-- U+1680, U+2000 to U+200A, U+2028, U+2029, U+202F, U+205F and U+3000.
abbrev wide_space : ℕ → ℕ → ℕ → Bool
wide_space a b c =
    ((a == 0xE1) && (b == 0x9A) && (c == 0x80))
    || ((a == 0xE2)
        && (b == 0x80)
        && ((leb 0x80 c && leb c 0x8A) || (c == 0xA8) || (c == 0xA9) || (c == 0xAF)))
    || ((a == 0xE2) && (b == 0x81) && (c == 0x9F))
    || ((a == 0xE3) && (b == 0x80) && (c == 0x80))

-- How many bytes the space at the front has; 0 if there is none. `flip` reads the bytes of one code
-- point from the last to the first.
space_size : Bool → Bytes → ℕ
space_size flip [] = 0
space_size flip (a ∷ []) = if ascii_space a then 1 else 0
space_size flip (a ∷ b ∷ []) =
    if ascii_space a
    then 1
    else if (if flip then latin_space b a else latin_space a b)
    then 2
    else 0
space_size flip (a ∷ b ∷ c ∷ rest) =
    if ascii_space a
    then 1
    else if (if flip then latin_space b a else latin_space a b)
    then 2
    else if (if flip then wide_space c b a else wide_space a b c)
    then 3
    else 0

-- Drops `skip` bytes, then every space at the front.
trim_front : Bool → ℕ → Bytes → Bytes
unfolding space_size
trim_front flip skip [] = []
trim_front flip skip (x ∷ xs) =
    let size = space_size flip (x ∷ xs) in
    let rest = trim_front flip (if skip == 0 then size - 1 else skip - 1) xs in
    if (skip == 0) && (size == 0) then x ∷ xs else rest

unfoldable pub trim_space : Bytes → Bytes
unfolding trim_front
trim_space s = reverse (trim_front true 0 (reverse (trim_front false 0 s)))

unfoldable pub is_empty : Bytes → Bool
is_empty [] = true
is_empty (x ∷ xs) = false

trim_space_test :
    trim_space (32 ∷ 0xC2 ∷ 0xA0 ∷ 97 ∷ 32 ∷ 98 ∷ 0xE3 ∷ 0x80 ∷ 0x80 ∷ 9 ∷ []) ≡ 97 ∷ 32 ∷ 98 ∷ []
unfolding trim_space
trim_space_test = refl
