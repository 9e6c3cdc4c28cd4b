-- ===== src/Base/Text.antt =====
-- C strings as lists of bytes, without their terminator: comparison, substring search and the
-- decimal conversions of the `printf` family.
use aosv.Base.Atomic.{ℤ, pos, negsuc}
use aosv.Base.{
  length, ◌≤◌, ℕ, zero, suc, ◌+◌, ◌/◌, ◌%◌, ◌≡◌, refl, Bool, true, false, ◌&&◌, ◌||◌, List, [], ◌∷◌,
  ◌++◌, arith, ◌==◌, if◌then◌else◌,
}
use Prim.Native.Char.{code}
use Prim.Native.String.{String}

abbrev pub FilePath : Type 0
FilePath = List ℕ

abbrev pub codes : String → FilePath
codes String.[] = []
codes (String.◌∷◌ c s) = code c ∷ codes s

-- `strcmp(a, b) == 0`
unfoldable pub same_text : FilePath → FilePath → Bool
same_text [] [] = true
same_text [] (y ∷ ys) = false
same_text (x ∷ xs) [] = false
same_text (x ∷ xs) (y ∷ ys) = (x == y) && same_text xs ys

unfoldable pub starts_with : FilePath → FilePath → Bool
starts_with [] text = true
starts_with (x ∷ xs) [] = false
starts_with (x ∷ xs) (y ∷ ys) = (x == y) && starts_with xs ys

-- `strstr(text, part) != NULL`
unfoldable pub contains : FilePath → FilePath → Bool
contains part [] = starts_with part []
contains part (y ∷ ys) = starts_with part (y ∷ ys) || contains part ys

pub same_text_refl : (t : FilePath) → same_text t t ≡ true
unfolding same_text
same_text_refl [] = refl
same_text_refl (x ∷ xs) = ground (arith, same_text_refl xs)

pub same_text_sound : (s t : FilePath) → same_text s t ≡ true → s ≡ t
unfolding same_text
same_text_sound [] [] h = refl
same_text_sound [] (y ∷ ys) h = ground arith
same_text_sound (x ∷ xs) [] h = ground arith
same_text_sound (x ∷ xs) (y ∷ ys) h = ground (arith, same_text_sound xs ys)

pub starts_with_append : (p q : FilePath) → starts_with p (p ++ q) ≡ true
unfolding starts_with
starts_with_append [] q = refl
starts_with_append (x ∷ p) q = ground (arith, starts_with_append p q)

-- What follows a text that is long enough does not matter.
pub starts_with_longer :
    (p s r : FilePath) → length p ≤ length s → starts_with p (s ++ r) ≡ starts_with p s
unfolding starts_with
starts_with_longer [] s r h = refl
starts_with_longer (x ∷ p) [] r h = absurd (omega arith)
starts_with_longer (x ∷ p) (y ∷ s) r h = ground (arith, starts_with_longer p s r (omega arith))

-- A text that stands anywhere in another is found there.
pub contains_middle : (a p b : FilePath) → contains p (a ++ (p ++ b)) ≡ true
unfolding contains starts_with
contains_middle [] [] [] = refl
contains_middle [] [] (y ∷ b) = refl
contains_middle [] (x ∷ p) b = ground (arith, starts_with_append p b)
contains_middle (x ∷ a) p b = ground (arith, contains_middle a p b)

-- `%d` of a number that is not negative
unfoldable pub decimal_digits : ℕ → ℕ → FilePath → FilePath
decimal_digits zero n rest = rest
decimal_digits (suc fuel) n rest =
    let more = decimal_digits fuel (n / 10) ((b'0' + n % 10) ∷ rest) in
    if n / 10 == 0 then (b'0' + n % 10) ∷ rest else more

unfoldable pub decimal : ℕ → FilePath
unfolding decimal_digits
decimal n = decimal_digits (suc n) n []

decimal_test : decimal 4095 ≡ codes "4095"
unfolding decimal
decimal_test = refl

-- A number in a string.
unfoldable pub int_text : ℤ → FilePath
int_text (pos n) = decimal n
int_text (negsuc n) = b'-' ∷ decimal (suc n)
