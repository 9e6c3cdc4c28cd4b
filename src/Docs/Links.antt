-- ===== src/Docs/Links.antt =====
-- The functions on addresses in docs/doxygen/html/navtree.js.
use aosv.Base.{
  ℕ, suc, ◌-◌, Bool, true, false, ◌&&◌, ◌||◌, map, [], ◌∷◌, ◌++◌, Option, none, some, leb, ◌==◌,
  if◌then◌else◌, take, drop,
}
use aosv.Base.Text.{codes, same_text}
use aosv.Docs.Text.{Text}
use aosv.Docs.Folders.{keep}

-- `s.lastIndexOf('/')`, where `none` is -1
unfoldable pub last_slash : Text → Option ℕ
last_slash [] = none
last_slash (c ∷ s) = elim (last_slash s) [
  | some i ↦ some (suc i)
  | none ↦ if c == b'/' then some 0 else none
]

unfoldable pub strip_path : Text → Text
unfolding last_slash
strip_path uri = elim (last_slash uri) [ none ↦ uri | some i ↦ drop (suc i) uri ]

-- The name that `getData` evaluates.
unfoldable pub data_name : Text → Text
unfolding strip_path
data_name var_name = map (λ c. if c == b'-' then b'_' else c) (strip_path var_name)

-- `\w`
abbrev pub is_word : ℕ → Bool
is_word c =
    (leb b'A' c && leb c b'Z')
    || ((leb b'a' c && leb c b'z') || ((leb b'0' c && leb c b'9') || (c == b'_')))

-- `/\/d\w\/d\w\w\/$/`, where the last eight characters are given
abbrev pub is_sub_folder : Text → Bool
is_sub_folder (a ∷ b ∷ c ∷ d ∷ e ∷ f ∷ g ∷ h ∷ []) =
    (a == b'/')
    && ((b == b'd')
        && (is_word c
            && ((d == b'/') && ((e == b'd') && (is_word f && (is_word g && (h == b'/')))))))
is_sub_folder _ = false

unfoldable pub strip_path2 : Text → Text
unfolding last_slash
strip_path2 uri = elim (last_slash uri) [
  | none ↦ uri
  | some i ↦
      if leb 7 i && is_sub_folder (drop (i - 7) (take (suc i) uri))
      then drop (i - 6) uri
      else drop (suc i) uri
]

abbrev pub is_hash : ℕ → Bool
is_hash c = is_word c || (c == b'-')

-- `hash` is the location's, with its '#'.
unfoldable pub hash_value : Text → Text
unfolding keep
hash_value hash = keep is_hash (drop 1 hash)

unfoldable pub hash_url : Text → Text
unfolding hash_value
hash_url hash = b'#' ∷ hash_value hash

abbrev pub one_of : Text → ℕ → Bool
one_of [] c = false
one_of (x ∷ s) c = (c == x) || one_of s c

abbrev pub is_path : ℕ → Bool
is_path c = is_word c || one_of (codes "-+&@#/%?=~|!:,.;()") c

unfoldable pub path_name : Text → Text
unfolding keep
path_name pathname = keep is_path pathname

-- `s.split('#')`: what is before the first '#', and between it and the next, if there is one.
unfoldable pub before_hash : Text → Text
before_hash [] = []
before_hash (c ∷ s) = elim (c == b'#') [ true ↦ [] | false ↦ c ∷ before_hash s ]

unfoldable pub after_hash : Text → Option Text
unfolding before_hash
after_hash [] = none
after_hash (c ∷ s) = elim (c == b'#') [ true ↦ some (before_hash s) | false ↦ after_hash s ]

-- `link.replace('#',':')`
unfoldable pub colon_for_hash : Text → Text
colon_for_hash [] = []
colon_for_hash (c ∷ s) = elim (c == b'#') [ true ↦ b':' ∷ s | false ↦ c ∷ colon_for_hash s ]

-- What `newNode` makes of a link: the attributes of its element, the link that a click stores, and the
-- anchor that it goes to.
pub record NodeLink : Type 0 where
  pub class_name : Text
  pub href : Text
  pub link : Text
  pub anchor : Option Text

abbrev pub void : Text
void = codes "javascript:void(0)"

-- A link that starts with '^' is not below the path to the root.
abbrev pub split_link : Text → Text → Text × Text
split_link relpath [] = (relpath, [])
split_link relpath (c ∷ s) = if c == b'^' then (s, s) else (relpath ++ (c ∷ s), c ∷ s)

unfoldable pub node_link : Text → Text → Text → NodeLink
unfolding strip_path path_name before_hash after_hash colon_for_hash
node_link relpath pathname given =
    let (url, link) = split_link relpath given in
    let name = strip_path (colon_for_hash link) in
    elim (after_hash link) [
      | none ↦ record { class_name = name; href = url; link = link; anchor = none }
      | some part ↦ record {
        class_name = name;
        href =
            if same_text (strip_path (path_name pathname)) (strip_path (before_hash link))
            then void
            else url;
        link = link;
        anchor = some (b'#' ∷ part);
      }
    ]
