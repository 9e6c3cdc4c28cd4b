-- ===== src/Docs/Cookies.antt =====
-- `readCookie` and `writeCookie` of docs/doxygen/html/resize.js.

use aosv.Base.{
  ℕ, ◌+◌, ◌≡◌, ◌≢◌, ap, ◌∙◌, true, [], ◌∷◌, ◌++◌, some, arith, length, drop, drop-append, All,
}
use aosv.Base.Text.{codes, starts_with, starts_with_append}
use aosv.Docs.Text.{Text, index_of}
use aosv.Docs.Resize.{cookie_key, until_semicolon, read_cookie, write_cookie}

index_of_start : (part s : Text) → starts_with part s ≡ true → index_of part s ≡ some 0
unfolding index_of
index_of_start part [] h = ground arith
index_of_start part (x ∷ s) h = ground arith

until_semicolon_value :
    (v rest : Text) → All (λ c. c ≢ b';') v → until_semicolon (v ++ (b';' ∷ rest)) ≡ v
unfolding until_semicolon
until_semicolon_value [] rest u = ground arith
until_semicolon_value (c ∷ v) rest (ne, u) = ground (arith, until_semicolon_value v rest u)

read_found :
    (jar cookie : Text) {n : ℕ}
    → index_of (cookie_key cookie) jar ≡ some n
    → read_cookie jar cookie ≡ some (until_semicolon (drop (n + length (cookie_key cookie)) jar))
unfolding read_cookie
read_found jar cookie h = ground arith

-- At the start of the cookies.
read_first :
    (cookie v rest : Text)
    → All (λ c. c ≢ b';') v
    → read_cookie (cookie_key cookie ++ (v ++ (b';' ∷ rest))) cookie ≡ some v
read_first cookie v rest u =
    read_found (cookie_key cookie ++ value) cookie (
      index_of_start (cookie_key cookie) (cookie_key cookie ++ value)
        (starts_with_append (cookie_key cookie) value))
    ∙ ap (λ (n : ℕ). some (until_semicolon (drop n (cookie_key cookie ++ value))))
        {y = length (cookie_key cookie)} (omega arith)
    ∙ ap (λ (t : Text). some (until_semicolon t)) (drop-append (cookie_key cookie) value)
    ∙ ap (λ (t : Text). some t) (until_semicolon_value v rest u)
  where
    value : Text
    value = v ++ (b';' ∷ rest)

-- A value without a semicolon is read back from what `writeCookie` assigns.
read_cookie-write_cookie :
    (cookie v expiration : Text)
    → All (λ c. c ≢ b';') v
    → read_cookie (write_cookie cookie v expiration) cookie ≡ some v
unfolding write_cookie
read_cookie-write_cookie cookie v expiration u =
    read_first cookie v (codes " expires=" ++ (expiration ++ codes "; path=/")) u
