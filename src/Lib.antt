-- ===== src/Lib.antt =====
-- The simulator of a flash device of this repository with the flash translation layer MNFTL.
--
-- A request enters by `Ssd::event_arrive`, goes to `Controller::event_arrive`, and from there to
-- `read`, `write` or `trim` of the FTL. MNFTL maps a logical page number, by its logical block, a
-- table and a slot, to a physical page number. It takes blocks from the block manager, writes the
-- pages of a block in order, and sends events back to `Controller::issue`, which reserves the bus,
-- passes the RAM, and routes each event from the device over package, die, plane and block to a page.
--
-- The files, and what they model:
--   Config         ssd.h: the configuration variables that are read, and the enumerations
--   Address        ssd_address.cpp; Linear is about its linear form, Match about its comparisons
--   Event          ssd_event.cpp
--   Channel        ssd_channel.cpp; Order and Schedule are about its reservations
--   Bus            ssd_bus.cpp and ssd_ram.cpp
--   Flash/Page, Block, Plane, Die, Package    ssd_page.cpp, ssd_block.cpp, ssd_plane.cpp (with
--                  Plane/Merge for `_merge`), ssd_die.cpp and ssd_package.cpp
--   Flash/Wear     the loop of the `update_wear_stats` methods, and the routing to a part
--   Flash/Effect   what an operation may change, with a file Effects at each level that shows it
--   Flash/Block/Moves     what single operations of a block leave of its pages, for Plane/Merge
--   Flash/Block/Counts    the counters of a block against the states of its pages
--   Ssd            ssd_ssd.cpp; FreePage is about the page that `get_free_page` finds,
--                  Wear about `update_wear_stats`, and Queries has the rest of its queries and
--                  those of ssd_controller.cpp
--   Controller     `issue` of ssd_controller.cpp, and `reset` of ssd_stats.cpp
--   BlockManager   ssd_bm.cpp; Alloc has the allocation and the garbage collection
--   Mnftl          mn_ftl.cpp: read, write and trim, with Tables for the maps PMD and PMT, Cleanup
--                  for `cleanup_block`, Requests for the way of a request into the FTL, and Inv,
--                  Places, Commit, Store, Fetch, Forget and Initial for proofs
--   Mnftl/Live     when requests to MNFTL return: the files Returns of Flash, Ssd, Bus, Controller
--                  and BlockManager say when theirs do, with Flash/Kept, Ssd/Numbers, Ssd/Initial and
--                  Mnftl/Tables/Shape; Requests/Sessions is about sessions
--   Mnftl/Reverse  mn_ftl_v3.cpp, with Mnftl/Tables/Scan for the search that its map replaces
--   Ftls           ssd_ftlparent.cpp (Parent), FTLs/page_ftl.cpp (PageFtl) and FTLs/bast_ftl.cpp (Bast,
--                  with Merge for the merges and Requests for write and trim)
--   Device         the interface of an FTL, and requests to a device with any FTL
--   Raid           ssd_raidssd.cpp, over any device
--   Tests          a session of ten requests on a small device, and instances of the theorems
--   Base           the names that all share; Base/Process is the type of a call that may stop
--
-- How the code corresponds to the model:
--   State is passed explicitly: an operation takes the event, the memory and its part of the
--   hardware, and returns them with the status. A failed `assert`, a throw, and a read outside an
--   array are `abort`: the assertions are active, since assert.h comes before ssd.h defines NDEBUG.
--   Times and delays are numbers of one tick; the rounding of doubles is not modelled. The delays
--   that constructors copy are read from the configuration. A uint or ulong that is counted up keeps
--   its wrap-around; the constructor `Address(uint, …)` cuts a number to 32 bits. The physical page
--   numbers that constructors compute are taken to fit 32 bits, and so is the product of sizes that
--   NUMBER_OF_ADDRESSABLE_BLOCKS is computed from, but for the page-level FTL, whose capacity wraps
--   around as in the code. A number of -1 is `none`; a pointer to a
--   block is its physical address; a `std::map` is a list of pairs in the order of the keys.
--   A page of data is one number, and a payload is such a number or none.
--   A field that a constructor leaves unset has a default. Loops are recursion on their lists, or on
--   the number of rounds that their condition allows, which bounds them: 5 rounds for the loops of
--   `insert_events`, the pages of a block for `_merge` and `cleanup_block`.
--   `order` is the order of the blocks that the multi-index container of boost keeps, and `cleanup`
--   the virtual `cleanup_block`; both are parameters, and so are the numbers of `random()` and the
--   shift that the constructor of BAST computes by `log`.
--
-- Not modelled: the other FTLs (FAST, DFTL, BDFTL), mn_ftl_v2.cpp and FTLs/mn_ftl.cpp, the parser of
-- the configuration, the printing of statistics, and the programs.
pub mod Base
pub mod Config
pub mod Address
pub mod Event
pub mod Channel
pub mod Bus
pub mod Flash
pub mod Ssd
pub mod Controller
pub mod BlockManager
pub mod Mnftl
pub mod Tests
pub mod Ftls
pub mod Raid
pub mod Device
