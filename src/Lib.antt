-- ===== src/Lib.antt =====
-- SessionFS: the Linux kernel module of src/kmodule that gives open files session semantics, with its
-- library for user space and the scripts of its documentation. A process that opens a file through
-- the device gets an incarnation, a private copy; when it closes the incarnation, the copy is written
-- over the original file.
--
-- The parts and their files:
--   * Base: tests, lists and signed counters over the native numbers, C strings as lists of bytes,
--     and the bits of a mask.
--   * Kernel: the Linux interfaces that the module calls, as a record of functions over a state `W`
--     that is left open. Kernel/Run: a computation ends with a result, faults (it uses a pointer
--     that is null or freed), or runs out of fuel.
--   * Session (src/kmodule/session_types.h): the structures, the memory with the session objects
--     and the names, and the state `Sys` of the session manager.
--   * Info (src/kmodule/session_info.c): add_session_info, remove_session_info,
--     add_incarnation_info, remove_incarnation_info; Counters and Publish say what they leave.
--     Show has the functions that SysFS calls to read an attribute.
--   * Manager (src/kmodule/session_manager.c): Files has open_file and copy_file, Search has
--     search_session and delete_session, Open has init_session, create_incarnation and
--     create_session, Close has delete_incarnation and close_session, Clean has clean_manager. A
--     long function is cut at its branches into named parts (create_incarnation: check_session,
--     open_incarnation, start_incarnation, fill_incarnation, list_incarnation), in its order. The
--     proofs are in Copy, CopyEnds and Truncation (copy_file), Find and Nameless (search_session),
--     Settle, Flush and Closed (close_session), Join (create_incarnation), Fresh (init_session),
--     Reopen and First (create_session), Tidy, Tally and CleanEnds (clean_manager).
--   * Device (src/kmodule/device_sessionfs.c): Path has path_check, device_read and
--     device_write, Ioctl has device_ioctl, Setup has init_device and release_device, with
--     init_info, release_info and src/kmodule/module.c; the kernel's registers of devices are the
--     parameter Registers. The proofs are in Directory, Flags, Balance, Shutdown and Loading.
--   * Library (src/shared_lib/libsessionfs.c), which takes the place of `open` and `close` in a
--     process: Process has the C library that it calls, as a record of functions over a state `W`
--     (Libc), and the process with its `errno`. Paths has get_sess_path, write_sess_path and
--     device_shutdown, Close and Open have `close` and `open` (lib_close, lib_open), Load has
--     init_method. The proofs are in Names (the names of incarnations, from the module to the
--     library), Closes, Opens, Switches and Attached (the library on the device of the module).
--   * Docs (docs/doxygen/html): the scripts of the documentation's pages, as doxygen has put
--     them there. Of search/search.js: Ids (convertToId), Position (getXPos, getYPos), Window
--     (the variables of SearchBox and SearchResults, and what they change), Box and Keys (the
--     methods of SearchBox), Walk, Match and Nav (those of SearchResults), Build (createResults),
--     Start (init_search). Index is search/searchdata.js, Folders is dynsections.js, Resize is
--     resize.js, Menu is makeTree of menu.js, MenuData is menudata.js. Of navtree.js: Links (the
--     functions on addresses, and the links that newNode makes), Sync (storeLink, deleteLink,
--     cachedLink, toggleSyncButton, the place that navTo finds), Tree (showNode, expandNode,
--     getNode, gotoNode), Navigate (navTo) and Startup (load, ready and hashchange at the end of
--     initNavTree), NodeHtml (createIndent, newNode) and Highlight (selectAndHighlight). TreeData
--     has the data of the tree: Root is navtreedata.js, IndexStart and IndexRest are
--     navtreeindex0.js, Structs, Folders, Module, Sessions and Programs are the scripts of the
--     entries, Variables brings them together. The proofs are in IdsRoundTrip, Preorder with
--     Forest and Steps (FindChildElement), Items (NavNext, NavPrev), Rows and Shows (Search of
--     SearchResults), Panel, Sections, Sent (Search of SearchBox), KeyRuns, Made (createResults),
--     Widths, Cookies, FolderNames, SyncRuns, IndexParts, Reach, Indexed (navTo on the data),
--     Orders and Found.
--   * Tests: a small kernel and C libraries that run, a small page, and the theorems at inputs that
--     meet their hypotheses.
--
-- The library calls the device by read, write and ioctl (a parameter of the model, which Attached fills
-- for read). The device calls the manager (create_session, close_session, clean_manager), the manager calls
-- the session information, and all of them call the kernel.
--
-- Correspondence: a C error -n is `err n`. A pointer is a number, and the memory is a map from
-- pointers to objects; loading or freeing what is not there is a fault. The list of sessions and
-- the list of incarnations are lists, the newest first. Locks, RCU grace periods and log messages
-- have no counterpart, since each operation runs alone. Counters (`atomic_t`, `kref`) are unbounded
-- signed numbers; flags are masked to 32 bits.
--
-- In the kernel module the only loop that is not over a list is that of copy_file. Its fuel is an
-- argument, and one more than the number of bytes in the source is enough (Manager.Copy,
-- Manager.CopyEnds).
--
-- In Library, a failure of the C library is `err e`, with e in `errno`, and the C result -1. What the
-- device does is part of Libc. Messages and freed memory have no counterpart; a string that fills its
-- buffer, and a write behind a buffer, are a fault.
--
-- In Docs, a string is a list of UTF-16 code units, an element is a number, and a document is a store
-- of functions from elements to their properties; a property of null is a fault. The page and the
-- frame with the results are two documents. Layout and the functions of strings that need tables are
-- the parameter Browser, the calls of jquery.js are the parameter JQuery, and sizes and cookies of the
-- window are the parameter Screen. A script that the tree loads is there at once; what it defines is a
-- parameter, and Indexed gives the data for it. The events that focus() and blur() cause are calls of
-- their own.
-- Loops along pointers and over numbered items take fuel: two rounds for each element, and one more
-- than the number of items to the first missing one, are enough (Docs.Preorder, Docs.Items).
--
-- Not modelled: the program in src/demo, and shell scripts. Of the pages: scrolling and glowing
-- in navtree.js, jquery.js (a copy of jQuery), the generated data of the search index, the setup
-- at the end of initResizable, and the fixed HTML that initMenu inserts.
pub mod Base
pub mod Kernel
pub mod Session
pub mod Info
pub mod Manager
pub mod Docs
pub mod Library
pub mod Device
pub mod Tests
