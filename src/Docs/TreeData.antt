-- ===== src/Docs/TreeData.antt =====
-- The data of the tree: navtreedata.js, navtreeindex0.js, and the script of each entry of
-- docs/doxygen/html.
pub mod Listing
pub mod Root
pub mod Structs
pub mod Folders
pub mod Module
pub mod Sessions
pub mod Programs
pub mod IndexStart
pub mod IndexRest
pub mod Variables
