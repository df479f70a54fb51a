-- ===== src/Prelude/Strings.antt =====
-- Go's strings.TrimSpace on bytes: the white space of Unicode, in UTF-8.
use Prim.Native.Nat.{ℕ}
use mathlib.Core.Bool.{Bool, ◌&&◌, ◌||◌}
use mathlib.Core.List.{[], ◌∷◌, reverse}
use incident_controller.Prelude.Tests.{◌==◌, leb, if◌then◌else◌}
use incident_controller.Prelude.Bytes.{Text}

abbrev pub ascii_space : ℕ → Bool
ascii_space b = b == 0x20 || leb 0x09 b && leb b 0x0d

-- U+0085 and U+00A0.
abbrev pub wide_space_2 : ℕ → ℕ → Bool
wide_space_2 a b = a == 0xc2 && (b == 0x85 || b == 0xa0)

-- U+1680, U+2000 to U+200A, U+2028, U+2029, U+202F, U+205F and U+3000.
abbrev pub wide_space_3 : ℕ → ℕ → ℕ → Bool
wide_space_3 a b c =
    a == 0xe1 && b == 0x9a && c == 0x80
    || a == 0xe2 && b == 0x80 && (leb 0x80 c && leb c 0x8a || c == 0xa8 || c == 0xa9 || c == 0xaf)
    || a == 0xe2 && b == 0x81 && c == 0x9f
    || a == 0xe3 && b == 0x80 && c == 0x80

-- Drop leading white space, whose two- and three-byte forms the arguments tell.
trim_front : (ℕ → ℕ → Bool) → (ℕ → ℕ → ℕ → Bool) → Text → Text
trim_front two three [] = []
trim_front two three (a ∷ []) = if ascii_space a then [] else a ∷ []
trim_front two three (a ∷ b ∷ []) =
    let rest = trim_front two three (b ∷ []) in
    if ascii_space a then rest else if two a b then [] else a ∷ b ∷ []
trim_front two three (a ∷ b ∷ c ∷ s) =
    let rest_1 = trim_front two three (b ∷ c ∷ s) in
    let rest_2 = trim_front two three (c ∷ s) in
    let rest_3 = trim_front two three s in
    if ascii_space a
    then rest_1
    else if two a b
    then rest_2
    else if three a b c
    then rest_3
    else a ∷ b ∷ c ∷ s

-- The white space at the end is that at the front of the reversed text, with its bytes reversed.
unfoldable pub trim_space : Text → Text
unfolding trim_front
trim_space s =
    let front = trim_front wide_space_2 wide_space_3 s in
    reverse (trim_front (λ a b. wide_space_2 b a) (λ a b c. wide_space_3 c b a) (reverse front))
