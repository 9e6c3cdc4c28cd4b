-- ===== src/Docs/Index.antt =====
-- docs/doxygen/html/search/searchdata.js: the sections of the search index.
use aosv.Base.{List, [], ◌∷◌}
use aosv.Base.Text.{codes}
use aosv.Docs.Text.{Text}

-- The first letters that have a page of results.
abbrev pub index_sections_with_content : List Text
index_sections_with_content =
    codes "_acdfgiklmnoprsuvw"
    ∷ codes "is"
    ∷ codes "dlmsu"
    ∷ codes "_acdfgimoprsw"
    ∷ codes "dkoprs"
    ∷ codes "o"
    ∷ codes "_acdikmnopsv"
    ∷ codes "f"
    ∷ []

abbrev pub index_section_names : List Text
index_section_names =
    codes "all"
    ∷ codes "classes"
    ∷ codes "files"
    ∷ codes "functions"
    ∷ codes "variables"
    ∷ codes "typedefs"
    ∷ codes "defines"
    ∷ codes "pages"
    ∷ []

abbrev pub index_section_labels : List Text
index_section_labels =
    codes "All"
    ∷ codes "Data Structures"
    ∷ codes "Files"
    ∷ codes "Functions"
    ∷ codes "Variables"
    ∷ codes "Typedefs"
    ∷ codes "Macros"
    ∷ codes "Pages"
    ∷ []
