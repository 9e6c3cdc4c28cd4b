-- ===== src/Docs/Dom.antt =====
-- A document as a store of elements: an element is a number, and its properties are functions of it.
use aosv.Base.{ℕ, ◌≡◌, ◌≢◌, Bool, List, Option, none, some, arith, ◌==◌, if◌then◌else◌}
use aosv.Base.Atomic.{ℤ}
use aosv.Base.Text.{same_text}
use aosv.Kernel.Run.{done, fault, M}
use aosv.Docs.Text.{Text}

pub record Dom : Type 0 where
  -- getElementById; getElementsByTagName("div")
  pub by_id : Text → Option ℕ
  pub divs : List ℕ
  pub node_name : ℕ → Text
  pub class_name : ℕ → Text
  pub id : ℕ → Text
  pub parent : ℕ → Option ℕ
  pub first_child : ℕ → Option ℕ
  pub next_sibling : ℕ → Option ℕ
  pub child_nodes : ℕ → List ℕ
  pub offset_parent : ℕ → Option ℕ
  pub value : ℕ → Text
  pub inner_html : ℕ → Text
  pub on_click : ℕ → Text
  pub href : ℕ → Text
  -- style.display and the other properties of the style
  pub display : ℕ → Text
  pub left : ℕ → Text
  pub top : ℕ → Text
  pub position : ℕ → Text
  pub width : ℕ → Text
  -- document.body, and the number of the next element
  pub body : ℕ
  pub next : ℕ

-- What the browser decides: layout, and library functions on strings that need tables.
pub record Browser : Type 0 where
  pub offset_left : Dom → ℕ → ℤ
  pub offset_top : Dom → ℕ → ℤ
  pub offset_width : Dom → ℕ → ℤ
  pub offset_height : Dom → ℕ → ℤ
  pub client_width : Dom → ℕ → ℤ
  pub to_lower_case : Text → Text
  pub escape : Text → Text
  pub unescape : Text → Text
  -- `s > 1`, which reads the string as a number
  pub above_one : Text → Bool

unfoldable pub change {ℓ} : {A : Type ℓ} → (ℕ → A) → ℕ → A → ℕ → A
change f e v q = if e == q then v else f q

pub change_self {ℓ} : {A : Type ℓ} (f : ℕ → A) (e : ℕ) (v : A) → change f e v e ≡ v
unfolding change
change_self f e v = ground arith

pub change_other {ℓ} : {A : Type ℓ} (f : ℕ → A) (e q : ℕ) (v : A) → e ≢ q → change f e v q ≡ f q
unfolding change
change_other f e q v h = ground arith

abbrev pub show_as : ℕ → Text → Dom → Dom
show_as e v d = record d { display = change d.display e v }

-- `e.style.display == v`
abbrev pub shown_as : Dom → ℕ → Text → Bool
shown_as d e v = same_text (d.display e) v

-- A property of `null` is an error.
unfoldable pub non_null : {S A : Type 0} → Option A → M S A
non_null none s = fault
non_null (some a) s = done a s
