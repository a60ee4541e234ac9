-- ===== src/Lib.antt =====
-- rs_dtool: a model of the downloader of Dtool_impl, in the files below Dtool_impl/src.
--
-- A download is split into segments, which tasks fetch side by side. The tasks of a download form a
-- group: they share a state, busy or idle, behind a lock, and each has a slot in the busy state, with
-- a shared cell that holds the slot's position. A task reads the chunks of a stream and writes them
-- from its segment's start, while it counts down what remains of the segment in a shared counter.
-- The answers of the server say whether a download can be split or taken up again.
--
-- Base: the names, tests, lists and machine operations that the other files share. `Exec` is what a
-- call does: it returns, panics, waits for ever or is undefined behaviour; `Build` is the profile,
-- which decides whether an overflow panics or wraps.
-- Segment: downloader/segment.rs. `Segment`, `SegmentIter`, `split_by_step`, `split_by_times`,
-- `split_at` and `next` are the functions of those names; Segment/Tiles, Segment/Times and
-- Segment/SplitAt say what they give; Segment/Resume has the rest of the file.
-- Family: downloader/family.rs. `Lockable` is the trait, `Excludes` the laws of a lock, `BorrowChecker`
-- the lock of `ThreadLocal`; the lock of `ThreadSafe` is another library's. Family/Models has the thread
-- models over cells, counted pointers and a mutex of other libraries.
-- Group/Slots: `SlotVec`, `Slot`, `SlotShare` and `Reporter` of downloader/download_group.rs. The shared
-- cells are a heap, a list of cells; a reference to a cell is its position in the heap. No cell is
-- freed, as a counted reference keeps it. Group/Slots/Contents forgets the order of the slots: a bag;
-- Group/Slots/Exts is about the user's part of the cells.
-- Group/Shared, Group/Handles, and a file for each handle: the shared state of that file, its lock and
-- the methods. A method of `&self` or `&mut self` takes the handle and the `World`, and gives the
-- new `World`; one of `self` gives the new handle as well. A closure that is given a `&mut` is a
-- function from the old value to the new one.
-- Group/Tasks: the tasks as a step relation over those methods, in any order, for any number of tasks,
-- each with one handle; who writes to slots or positions by a `&mut` is to leave the slots indexed.
-- Group/Tasks/CellOf and Group/Tasks/Cells are about the cell that each reporter has.
-- Transfer: downloader/subcontext.rs and the trait of downloader/pwriter.rs; Transfer/Fetch has the loops,
-- Transfer/Download that of `DownloadContext` of downloader/group_impl.rs. A stream is the list of
-- what it gives, so the loops end with the list and need no fuel. An `i64` is its bit pattern.
-- Transfer/Chunks has the functions that fetch one chunk or up to a condition, with what is left of the
-- stream. The loop of `fetch_stream` is made of rounds, from one wait for the stream to the next; a
-- turn of a task is one round, and Transfer/Fetch/Rounds takes a round and what follows it together.
-- Transfer/Parallel has several such tasks on one writer, each with its own segment and counter, and
-- a step relation by which any of them takes the next turn. Transfer/File reads the writer as a file;
-- Transfer/Whole and Transfer/Parallel/Split join Segment and Transfer, with a task for each part of
-- a segment, one after the other or in any order, for want of a driver in the code. Transfer/Cancel is
-- about a download that its token stops and that is taken up again.
-- GroupImpl: what a download puts into its group, `Ext` of downloader/group_impl.rs.
-- Client: the functions of downloader/group_impl.rs that send a request, `first_response_download`, which
-- joins them with `DownloadContext`, and downloader/stream_creater.rs. Client/Race has `build_new` up to the
-- variable that it never assigns, and what follows as a function of that; the outcome of its `select` is
-- an argument.
-- Strategy: `Auto` of downloader/strategy.rs; Strategy/Counts is about what it counts, Strategy/Suggest
-- about what it suggests. Detach: the references of downloader/pwriter.rs,
-- and Detach/Pointers the pointers that give them. Marker: downloader/marker.rs.
-- Error: downloader/error.rs; Error/Status has `error_for_succes`, Error/Display what the errors write,
-- Error/Sources the sources of the errors.
-- Http: downloader/httprequest.rs, the classification of an answer in downloader/group_impl.rs, and
-- utils/file_name.rs, over header maps, requests and responses that are parameters.
--
-- Parameters, with their documented behaviour as hypotheses where a theorem needs it: a lock, a writer,
-- header maps, requests and responses, the client, `f32` and instants, counted pointers and cells. Not
-- modelled: the spawning of tasks (`todo!()`), `response_builder` and `retry_by_strategy` (unfinished), the
-- body of `track`, which lacks an argument, and `Auto::new` (most of its fields have no value). A
-- counter is modelled as the number that its cell holds, and no other task changes it: no code
-- hands a counter to a second task. The `mem::transmute` of handles (`as_state`) is left out.
pub mod Base
pub mod Segment
pub mod Family
pub mod Group
pub mod Transfer
pub mod Error
pub mod Http
pub mod Client
pub mod Strategy
pub mod Detach
pub mod GroupImpl
pub mod Marker
