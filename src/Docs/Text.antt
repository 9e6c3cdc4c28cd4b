-- ===== src/Docs/Text.antt =====
-- JavaScript strings as lists of UTF-16 code units, and the string functions that the scripts use.
use aosv.Base.{
  ℕ, zero, suc, ◌+◌, ◌-◌, ◌/◌, ◌%◌, ◌≡◌, refl, true, false, [], ◌∷◌, ◌++◌, Option, none, some, ltb,
  ◌==◌, if◌then◌else◌,
}
use aosv.Base.Atomic.{ℤ, pos, negsuc}
unfoldable pub use aosv.Base.Text.{int_text}
use aosv.Base.Text.{FilePath, codes, starts_with}

abbrev pub Text : Type 0
Text = FilePath

-- `s.replace(/^ +/, "")`
unfoldable pub strip_leading : Text → Text
strip_leading [] = []
strip_leading (c ∷ s) = elim (c == b' ') [ true ↦ strip_leading s | false ↦ c ∷ s ]

-- `s.replace(/ +$/, "")`
unfoldable pub strip_trailing : Text → Text
strip_trailing [] = []
strip_trailing (c ∷ s) = elim (strip_trailing s) [
  | [] ↦ if c == b' ' then [] else c ∷ []
  | d ∷ rest ↦ c ∷ (d ∷ rest)
]

-- `s.replace(/ +/g, "")`
unfoldable pub remove_spaces : Text → Text
remove_spaces [] = []
remove_spaces (c ∷ s) = let rest = remove_spaces s in if c == b' ' then rest else c ∷ rest

-- `s.indexOf(part)`, where `none` is -1
unfoldable pub index_of : Text → Text → Option ℕ
index_of part [] = if starts_with part [] then some 0 else none
index_of part (c ∷ s) = elim (starts_with part (c ∷ s)) [
  | true ↦ some 0
  | false ↦ elim (index_of part s) [ none ↦ none | some n ↦ some (suc n) ]
]

unfoldable pub hex_digit : ℕ → ℕ
hex_digit n = if ltb n 10 then b'0' + n else 87 + n

-- `n.toString(16)`
unfoldable pub hex_digits : ℕ → ℕ → Text → Text
unfolding hex_digit
hex_digits zero n rest = rest
hex_digits (suc fuel) n rest =
    let more = hex_digits fuel (n / 16) (hex_digit (n % 16) ∷ rest) in
    if n / 16 == 0 then hex_digit (n % 16) ∷ rest else more

unfoldable pub hex : ℕ → Text
unfolding hex_digits
hex n = hex_digits (suc n) n []

abbrev pub px : ℤ → Text
px z = int_text z ++ codes "px"

-- Sums of signed numbers.
unfoldable pub difference : ℕ → ℕ → ℤ
difference m n = if ltb m n then negsuc (n - m - 1) else pos (m - n)

infixl 6 ◌+ℤ◌ ◌-ℤ◌
unfoldable pub ◌+ℤ◌ : ℤ → ℤ → ℤ
unfolding difference
◌+ℤ◌ (pos m) (pos n) = pos (m + n)
◌+ℤ◌ (pos m) (negsuc n) = difference m (suc n)
◌+ℤ◌ (negsuc m) (pos n) = difference n (suc m)
◌+ℤ◌ (negsuc m) (negsuc n) = negsuc (suc (m + n))

unfoldable pub ◌-ℤ◌ : ℤ → ℤ → ℤ
unfolding ◌+ℤ◌
◌-ℤ◌ a (pos zero) = a
◌-ℤ◌ a (pos (suc n)) = a +ℤ negsuc n
◌-ℤ◌ a (negsuc n) = a +ℤ pos (suc n)

hex_test : hex 0x4a0f ≡ codes "4a0f"
unfolding hex
hex_test = refl

strip_test : strip_leading (strip_trailing (codes "  a b ")) ≡ codes "a b"
unfolding strip_leading strip_trailing
strip_test = refl
