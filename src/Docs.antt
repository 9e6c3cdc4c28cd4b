-- ===== src/Docs.antt =====
-- The scripts of the documentation pages in docs/doxygen/html. The browser's layout and the functions
-- of its library that depend on Unicode tables are a parameter.
pub mod Text
pub mod Dom
pub mod Ids
pub mod Window
pub mod Position
pub mod Walk
pub mod Index
pub mod Box
pub mod Keys
pub mod Match
pub mod Nav
pub mod Build
pub mod Start
pub mod Folders
pub mod Resize
pub mod Menu
pub mod MenuData
pub mod IdsRoundTrip
pub mod Forest
pub mod Steps
pub mod Preorder
pub mod Items
pub mod Rows
pub mod Shows
pub mod KeyRuns
pub mod Widths
pub mod Cookies
pub mod FolderNames
pub mod Panel
pub mod Sections
pub mod Links
pub mod Sync
pub mod SyncRuns
pub mod TreeData
pub mod Startup
pub mod Orders
pub mod Navigate
pub mod Indexed
pub mod Highlight
pub mod Found
pub mod NodeHtml
pub mod IndexParts
pub mod Tree
pub mod Reach
pub mod Sent
pub mod Made
