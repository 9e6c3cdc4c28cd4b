-- ===== src/Docs/Ids.antt =====
-- `convertToId` of docs/doxygen/html/search/search.js.
use aosv.Base.{ℕ, ◌≡◌, refl, Bool, ◌&&◌, ◌||◌, [], ◌∷◌, ◌++◌, ltb, leb, if◌then◌else◌}
use aosv.Base.Text.{codes}
use aosv.Docs.Text.{Text, hex}

-- `c.match(/[a-z0-9\u0080-\uFFFF]/)`
unfoldable pub plain : ℕ → Bool
plain c = (leb b'a' c && leb c b'z') || ((leb b'0' c && leb c b'9') || (leb 0x80 c && leb c 0xffff))

unfoldable pub convert_unit : ℕ → Text
unfolding plain hex
convert_unit c = if plain c then c ∷ [] else if ltb c 16 then codes "_0" ++ hex c else b'_' ∷ hex c

unfoldable pub convert_to_id : Text → Text
unfolding convert_unit
convert_to_id [] = []
convert_to_id (c ∷ s) = convert_unit c ++ convert_to_id s

ids_test : convert_to_id (codes "open_file(") ≡ codes "open_5ffile_28"
unfolding convert_to_id
ids_test = refl
