-- ===== src/Docs/MenuData.antt =====
-- docs/doxygen/html/menudata.js: the main menu.
use aosv.Base.Text.{codes}
use aosv.Docs.Menu.{Children, Items, item, absent, children, nil, cons}

abbrev menu_data_structures : Items
menu_data_structures =
    cons (item (codes "Data Structures") (codes "annotated.html") absent)
      (cons (item (codes "Data Structure Index") (codes "classes.html") absent) (nil))

abbrev menu_files_globals_all : Items
menu_files_globals_all = cons (item (codes "_") (codes "globals.html#index__5F") absent) (
    cons (item (codes "a") (codes "globals.html#index_a") absent) (
      cons (item (codes "c") (codes "globals.html#index_c") absent) (
        cons (item (codes "d") (codes "globals.html#index_d") absent) (
          cons (item (codes "f") (codes "globals.html#index_f") absent) (
            cons (item (codes "g") (codes "globals.html#index_g") absent) (
              cons (item (codes "i") (codes "globals.html#index_i") absent) (
                cons (item (codes "k") (codes "globals.html#index_k") absent) (
                  cons (item (codes "m") (codes "globals.html#index_m") absent) (
                    cons (item (codes "n") (codes "globals.html#index_n") absent) (
                      cons (item (codes "o") (codes "globals.html#index_o") absent) (
                        cons (item (codes "p") (codes "globals.html#index_p") absent) (
                          cons (item (codes "r") (codes "globals.html#index_r") absent) (
                            cons (item (codes "s") (codes "globals.html#index_s") absent) (
                              cons (item (codes "v") (codes "globals.html#index_v") absent) (
                                cons (item (codes "w") (codes "globals.html#index_w") absent)
                                  (nil))))))))))))))))

abbrev menu_files_globals_functions : Items
menu_files_globals_functions =
    cons (item (codes "_") (codes "globals_func.html#index__5F") absent) (
      cons (item (codes "a") (codes "globals_func.html#index_a") absent) (
        cons (item (codes "c") (codes "globals_func.html#index_c") absent) (
          cons (item (codes "d") (codes "globals_func.html#index_d") absent) (
            cons (item (codes "f") (codes "globals_func.html#index_f") absent) (
              cons (item (codes "g") (codes "globals_func.html#index_g") absent) (
                cons (item (codes "i") (codes "globals_func.html#index_i") absent) (
                  cons (item (codes "m") (codes "globals_func.html#index_m") absent) (
                    cons (item (codes "o") (codes "globals_func.html#index_o") absent) (
                      cons (item (codes "p") (codes "globals_func.html#index_p") absent) (
                        cons (item (codes "r") (codes "globals_func.html#index_r") absent) (
                          cons (item (codes "s") (codes "globals_func.html#index_s") absent) (
                            cons (item (codes "w") (codes "globals_func.html#index_w") absent)
                              (nil)))))))))))))

abbrev menu_files_globals : Items
menu_files_globals =
    cons (item (codes "All") (codes "globals.html") (children menu_files_globals_all)) (
      cons
        (item (codes "Functions") (codes "globals_func.html")
          (children menu_files_globals_functions))
        (cons (item (codes "Variables") (codes "globals_vars.html") absent) (
          cons (item (codes "Typedefs") (codes "globals_type.html") absent)
            (cons (item (codes "Macros") (codes "globals_defs.html") absent) (nil)))))

abbrev menu_files : Items
menu_files =
    cons (item (codes "File List") (codes "files.html") absent)
      (cons (item (codes "Globals") (codes "globals.html") (children menu_files_globals)) (nil))

abbrev pub menu : Items
menu = cons (item (codes "Main Page") (codes "index.html") absent) (
    cons (item (codes "Data Structures") (codes "annotated.html") (children menu_data_structures))
      (cons (item (codes "Files") (codes "files.html") (children menu_files)) (nil)))

-- `menudata`
abbrev pub menu_data : Children
menu_data = children menu
