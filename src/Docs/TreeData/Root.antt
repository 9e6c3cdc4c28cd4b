-- ===== src/Docs/TreeData/Root.antt =====
-- docs/doxygen/html/navtreedata.js: the root of the tree, and the first address of each part of the index.
use aosv.Base.{List, [], ◌∷◌}
use aosv.Base.Text.{codes}
use aosv.Docs.Tree.{Entries, absent, variable, listed}
use aosv.Docs.TreeData.Listing.{listing}
use aosv.Docs.Text.{Text}

abbrev pub navtree : Entries
navtree = listing (
    (
      codes "SessionFS - A session based VFS wrapper",
      codes "index.html",
      listed (
          listing (
            (
              codes "Final Project Report",
              codes "index.html",
              listed (
                  listing (
                    (codes "Introduction", codes "index.html#autotoc_md0", absent)
                    ∷ (codes "User Space Library", codes "index.html#autotoc_md1", absent)
                    ∷ (
                      codes "Kernel-Level Implementation",
                      codes "index.html#autotoc_md2",
                      listed (
                          listing (
                            (
                              codes "Kernel-Level Data Structures Specification",
                              codes "index.html#autotoc_md3",
                              listed (
                                  listing (
                                    (
                                      codes "Module Configuration",
                                      codes "index.html#autotoc_md4",
                                      absent,
                                    )
                                    ∷ (
                                      codes "Character Device",
                                      codes "index.html#autotoc_md5",
                                      absent,
                                    )
                                    ∷ (
                                      codes "Session Manager",
                                      codes "index.html#autotoc_md6",
                                      absent,
                                    )
                                    ∷ (
                                      codes "Session Information",
                                      codes "index.html#autotoc_md7",
                                      absent,
                                    )
                                    ∷ [])),
                            )
                            ∷ (
                              codes "Kernel-Level Subsystem Implementation",
                              codes "index.html#autotoc_md8",
                              listed (
                                  listing (
                                    (
                                      codes "Module Configuration",
                                      codes "index.html#autotoc_md9",
                                      absent,
                                    )
                                    ∷ (
                                      codes "Character Device",
                                      codes "index.html#autotoc_md10",
                                      absent,
                                    )
                                    ∷ (
                                      codes "Session Manager",
                                      codes "index.html#autotoc_md11",
                                      absent,
                                    )
                                    ∷ (
                                      codes "Session Information",
                                      codes "index.html#autotoc_md12",
                                      absent,
                                    )
                                    ∷ [])),
                            )
                            ∷ [])),
                    )
                    ∷ (codes "Testcase and Benchmark", codes "index.html#autotoc_md13", absent)
                    ∷ (codes "Makefile organization", codes "index.html#autotoc_md14", absent)
                    ∷ [])),
            )
            ∷ (
              codes "Data Structures",
              codes "annotated.html",
              listed (
                  listing (
                    (
                      codes "Data Structures",
                      codes "annotated.html",
                      variable (codes "annotated_dup"),
                    )
                    ∷ (codes "Data Structure Index", codes "classes.html", absent)
                    ∷ [])),
            )
            ∷ (
              codes "Files",
              codes "files.html",
              listed (
                  listing (
                    (codes "File List", codes "files.html", variable (codes "files_dup"))
                    ∷ (
                      codes "Globals",
                      codes "globals.html",
                      listed (
                          listing (
                            (codes "All", codes "globals.html", absent)
                            ∷ (codes "Functions", codes "globals_func.html", absent)
                            ∷ (codes "Variables", codes "globals_vars.html", absent)
                            ∷ (codes "Typedefs", codes "globals_type.html", absent)
                            ∷ (codes "Macros", codes "globals_defs.html", absent)
                            ∷ [])),
                    )
                    ∷ [])),
            )
            ∷ [])),
    )
    ∷ [])

abbrev pub navtreeindex : List Text
navtreeindex = codes "annotated.html" ∷ []
