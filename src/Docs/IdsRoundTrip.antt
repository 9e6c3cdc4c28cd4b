-- ===== src/Docs/IdsRoundTrip.antt =====
-- `convertToId` of docs/doxygen/html/search/search.js loses nothing, and keeps prefixes.

use mathlib.Core.Bool.{false≢true}
use aosv.Base.{
  ℕ, zero, suc, ◌+◌, ◌-◌, ◌*◌, ◌/◌, ◌%◌, ◌≤◌, ◌<◌, ◌≡◌, ◌≢◌, ◌⊎◌, inl, inr, refl, sym, ap, ◌∙◌,
  true, false, ◌&&◌, [], ◌∷◌, ◌++◌, arith, ltb, ◌==◌, ==_iff, Bool-cases, if◌then◌else◌, All,
}
use aosv.Base.Text.{starts_with}
use aosv.Docs.Text.{Text, hex, hex_digit, hex_digits}
use aosv.Docs.Ids.{plain, convert_unit, convert_to_id}

-- UTF-16 code units.
abbrev pub IsUnit : ℕ → Type 0
IsUnit c = c < 0x10000

abbrev pub escaped : ℕ → Text
escaped c = b'_' ∷ (hex_digit (c / 16) ∷ (hex_digit (c % 16) ∷ []))

hex_one : (c : ℕ) → c < 16 → hex c ≡ hex_digit (c % 16) ∷ []
unfolding hex hex_digits
hex_one c h = ground arith

hex_two : (c : ℕ) → 16 ≤ c → c < 256 → hex c ≡ hex_digit (c / 16) ∷ (hex_digit (c % 16) ∷ [])
unfolding hex hex_digits
hex_two zero h l = absurd (omega arith)
hex_two (suc k) h l = ground arith

not_plain-lt : (c : ℕ) → IsUnit c → plain c ≡ false → c < 128
unfolding plain
not_plain-lt c h p = ground arith

zero_digit : hex_digit 0 ≡ b'0'
unfolding hex_digit
zero_digit = refl

convert_plain : (c : ℕ) → plain c ≡ true → convert_unit c ≡ c ∷ []
unfolding convert_unit
convert_plain c p = ground arith

convert_low : (c : ℕ) → plain c ≡ false → c < 16 → convert_unit c ≡ escaped c
unfolding convert_unit
convert_low c p h =
    let z : c / 16 ≡ 0 = omega arith in ground (arith, hex_one c h, zero_digit, ap hex_digit z)

convert_high : (c : ℕ) → plain c ≡ false → 16 ≤ c → c < 256 → convert_unit c ≡ escaped c
unfolding convert_unit
convert_high c p h l = ground (arith, hex_two c h l)

-- The two forms of a unit.
convert_unit-cases :
    (c : ℕ)
    → IsUnit c
    → ((plain c ≡ true) × (convert_unit c ≡ c ∷ []))
      ⊎ ((plain c ≡ false) × (c < 128) × (convert_unit c ≡ escaped c))
convert_unit-cases c h = elim (Bool-cases (plain c)) [
  | inl p ↦ inl (p, convert_plain c p)
  | inr p ↦
      let lt = not_plain-lt c h p in
      inr (
        p,
        lt,
        elim (Bool-cases (ltb c 16)) [
          | inl l ↦ convert_low c p (ground arith)
          | inr l ↦ convert_high c p (ground arith) (omega arith)
        ],
      )
]

-- The inverse: two digits behind each '_'.
unfoldable pub digit_value : ℕ → ℕ
digit_value d = if ltb d 58 then d - 48 else d - 87

unfoldable pub decode_id : Text → Text
unfolding digit_value
decode_id [] = []
decode_id (c ∷ []) = c ∷ []
decode_id (c ∷ h ∷ []) = c ∷ (h ∷ [])
decode_id (c ∷ h ∷ l ∷ s) = elim (c == b'_') [
  | true ↦ (digit_value h * 16 + digit_value l) ∷ decode_id s
  | false ↦ c ∷ decode_id (h ∷ (l ∷ s))
]

digit_value-hex_digit : (n : ℕ) → n < 16 → digit_value (hex_digit n) ≡ n
unfolding digit_value hex_digit
digit_value-hex_digit n h = ground arith

plain_bar : (c : ℕ) → plain c ≡ true → (c == b'_') ≡ false
unfolding plain
plain_bar c p = ground arith

decode_plain : (c : ℕ) (s : Text) → (c == b'_') ≡ false → decode_id (c ∷ s) ≡ c ∷ decode_id s
unfolding decode_id
decode_plain c [] e = refl
decode_plain c (h ∷ []) e = refl
decode_plain c (h ∷ l ∷ s) e = ground arith

decode_escaped : (c : ℕ) (s : Text) → c < 128 → decode_id (escaped c ++ s) ≡ c ∷ decode_id s
unfolding decode_id
decode_escaped c s h =
    ap (λ (n : ℕ). n ∷ decode_id s)
      (omega (
        arith,
        digit_value-hex_digit (c / 16) (omega arith),
        digit_value-hex_digit (c % 16) (omega arith),
      ))

-- Distinct strings have distinct ids: `decode_id` gives the string back.
pub decode_id-convert_to_id : (s : Text) → All IsUnit s → decode_id (convert_to_id s) ≡ s
unfolding convert_to_id decode_id
decode_id-convert_to_id [] u = refl
decode_id-convert_to_id (c ∷ s) (h, u) =
    let ih = ap (λ t. c ∷ t) (decode_id-convert_to_id s u) in
    elim (convert_unit-cases c h) [
      | inl (p, e) ↦ rw e (decode_plain c (convert_to_id s) (plain_bar c p) ∙ ih)
      | inr (p, l, e) ↦ rw e (decode_escaped c (convert_to_id s) l ∙ ih)
    ]

-- Two heads.
starts_with_cons :
    (x y : ℕ) (s t : Text) → starts_with (x ∷ s) (y ∷ t) ≡ ((x == y) && starts_with s t)
unfolding starts_with
starts_with_cons x y s t = refl

starts_with_same : (p s t : Text) → starts_with (p ++ s) (p ++ t) ≡ starts_with s t
unfolding starts_with
starts_with_same [] s t = refl
starts_with_same (x ∷ p) s t = ground (arith, starts_with_same p s t)

hex_digit-injective : (m n : ℕ) → m < 16 → n < 16 → hex_digit m ≡ hex_digit n → m ≡ n
unfolding hex_digit
hex_digit-injective m n h k e = ground arith

starts_with-escaped :
    (c d : ℕ) (s t : Text)
    → c < 128
    → d < 128
    → c ≢ d
    → starts_with (escaped c ++ s) (escaped d ++ t) ≡ false
unfolding starts_with
starts_with-escaped c d s t h k ne = ground (
  arith,
  hex_digit-injective (c / 16) (d / 16) (omega arith) (omega arith),
  hex_digit-injective (c % 16) (d % 16) (omega arith) (omega arith),
)

-- Different units start their ids differently.
starts_with_units :
    (c d : ℕ) (s t : Text)
    → IsUnit c
    → IsUnit d
    → c ≢ d
    → starts_with (convert_unit c ++ s) (convert_unit d ++ t) ≡ false
unfolding starts_with
starts_with_units c d s t h k ne = elim (convert_unit-cases c h) [
  | inl (p, e) ↦ elim (convert_unit-cases d k) [
    | inl (q, f) ↦ rw (e, f) (ground arith)
    | inr (q, l, f) ↦ rw (e, f) (ground (arith, plain_bar c p))
  ]
  | inr (p, l, e) ↦ elim (convert_unit-cases d k) [
    | inl (q, f) ↦ rw (e, f) (ground (arith, plain_bar d q))
    | inr (q, m, f) ↦ rw (e, f) (starts_with-escaped c d s t l m ne)
  ]
]

-- The id of a string starts with the id of another exactly if the string starts with the other.
pub starts_with-convert_to_id :
    (s t : Text)
    → All IsUnit s
    → All IsUnit t
    → starts_with (convert_to_id s) (convert_to_id t) ≡ starts_with s t
unfolding convert_to_id starts_with
starts_with-convert_to_id [] t u v = refl
starts_with-convert_to_id (c ∷ s) [] (h, u) v = elim (convert_unit-cases c h) [
  | inl (p, e) ↦ rw e refl
  | inr (p, l, e) ↦ rw e refl
]
starts_with-convert_to_id (c ∷ s) (d ∷ t) (h, u) (k, v) = elim (Bool-cases (c == d)) [
  | inl e ↦
      let q = (==_iff c d).0 e in
      rw (e, q)
        (starts_with_same (convert_unit d) (convert_to_id s) (convert_to_id t)
          ∙ starts_with-convert_to_id s t u v)
  | inr n ↦ rw n (
      starts_with_units c d (convert_to_id s) (convert_to_id t) h k
        (λ q. false≢true (sym n ∙ (==_iff c d).1 q)))
]
