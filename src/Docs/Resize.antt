-- ===== src/Docs/Resize.antt =====
-- docs/doxygen/html/resize.js: the cookie with the width of the navigation, and the sizes of the panes.
use aosv.Base.{
  ℕ, ◌+◌, Bool, true, false, ◌&&◌, [], ◌∷◌, ◌++◌, Option, none, some, leb, ltb, ◌==◌, if◌then◌else◌,
  length, drop,
}
use aosv.Base.Atomic.{ℤ, pos}
use aosv.Base.Text.{codes}
use aosv.Docs.Text.{Text, index_of, int_text, ◌-ℤ◌}

-- `cookie_namespace+"_"+cookie+"="`
abbrev pub cookie_key : Text → Text
cookie_key cookie = codes "doxygen_" ++ (cookie ++ codes "=")

-- Up to the next ';', or the end.
unfoldable pub until_semicolon : Text → Text
until_semicolon [] = []
until_semicolon (c ∷ s) = elim (c == b';') [ true ↦ [] | false ↦ c ∷ until_semicolon s ]

-- `readCookie`: the value, or none for 0.
unfoldable pub read_cookie : Text → Text → Option Text
unfolding index_of until_semicolon
read_cookie jar cookie = elim (index_of (cookie_key cookie) jar) [
  | none ↦ none
  | some n ↦ some (until_semicolon (drop (n + length (cookie_key cookie)) jar))
]

-- `writeCookie`: what is assigned to `document.cookie`.
unfoldable pub write_cookie : Text → Text → Text → Text
write_cookie cookie val expiration =
    cookie_key cookie ++ (val ++ (codes "; expires=" ++ (expiration ++ codes "; path=/")))

-- The panes: the navigation's width and its reading by `outerWidth`, the margin of the content, the
-- height of the three panes, and the variables of `initResizable`.
pub record Panes : Type 0 where
  pub sidenav_width : ℕ
  pub content_margin : ℕ
  pub pane_height : ℤ
  pub collapsed : Bool
  pub collapsed_width : ℕ
  pub bar_width : ℕ
  pub jar : Text

-- The sizes that the browser reports, and its reading of a string as a number.
pub record Screen : Type 0 where
  pub window_width : ℕ
  pub window_height : ℕ
  pub header_height : ℕ
  pub footer_height : ℕ
  pub outer_width : ℕ → ℕ
  pub number : Text → Option ℕ
  -- the cookies after an assignment to `document.cookie`, with the date ten years ahead
  pub expiration : Text
  pub set_cookie : Text → Text → Text

abbrev pub width_name : Text
width_name = codes "width"

unfoldable pub restore_width : ℕ → Panes → Panes
restore_width nav_width p = record p {
  content_margin = nav_width + p.bar_width;
  sidenav_width = nav_width;
}

abbrev pub desktop_vp : ℕ
desktop_vp = 768

module _ (S : Screen) where
  unfoldable pub resize_width : Panes → Panes
  unfolding write_cookie
  resize_width p =
      let outer = S.outer_width p.sidenav_width in
      record p {
        content_margin = outer;
        jar =
            S.set_cookie
              (write_cookie width_name (int_text (pos outer -ℤ pos p.bar_width)) S.expiration)
              p.jar;
      }

  -- The number in the cookie, where it has one.
  unfoldable pub saved_width : Panes → Option ℕ
  unfolding read_cookie
  saved_width p = elim (read_cookie p.jar width_name) [ none ↦ some 0 | some v ↦ S.number v ]

  abbrev pub fitting : Option ℕ → ℕ
  fitting none = 200
  fitting (some n) = if ltb 200 n && ltb n S.window_width then n else 200

  unfoldable pub collapse_expand : Panes → Panes
  unfolding restore_width saved_width
  collapse_expand p = elim (ltb 0 p.sidenav_width) [
    | true ↦ record (restore_width 0 p) { collapsed = true }
    | false ↦ record (restore_width (fitting (saved_width p)) p) { collapsed = false }
  ]

  -- The change between a narrow and a wide window, if the width has changed.
  unfoldable pub follow_width : Panes → Panes
  unfolding collapse_expand
  follow_width p =
      let w = S.window_width in
      elim (ltb w desktop_vp && leb desktop_vp p.collapsed_width) [
        | true ↦ if p.collapsed then p else collapse_expand p
        | false ↦ elim (ltb desktop_vp w && ltb p.collapsed_width desktop_vp) [
          | true ↦ if p.collapsed then collapse_expand p else p
          | false ↦ p
        ]
      ]

  unfoldable pub resize_height : Panes → Panes
  unfolding follow_width
  resize_height p =
      let q = record p {
        pane_height = (pos S.window_height -ℤ pos S.header_height) -ℤ pos S.footer_height;
      } in
      elim (S.window_width == p.collapsed_width) [
        | true ↦ q
        | false ↦ record (follow_width q) { collapsed_width = S.window_width }
      ]
