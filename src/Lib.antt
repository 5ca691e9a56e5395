-- ===== src/Lib.antt =====
-- paged-alloc: fixed-size pages recycled through intrusive free lists, variable-size chunks packed into
-- those pages, and counters for the tenants that hold them.
--
-- The parts of the program, from the bottom up, and where each is modelled:
--
--   * The machine. Base has 64-bit and 32-bit words with their wrap-around, and masks on words; Memory
--     has byte-addressed memory with the eight bytes of a stored pointer; Alloc has `std::alloc`
--     (layouts, live blocks, `alloc_zeroed`, `dealloc`). Where the global allocator places a block is a
--     parameter `place`, and `IsAllocator` states its documented promises; Alloc.Bump is a concrete
--     allocator, for the tests.
--   * src/source.rs: Source has the trait `PageSource` as a record of functions, and its safety section
--     as the record `Contract`. Source.Heap has `HeapSource`. The pools are modelled over any source
--     with a contract.
--   * src/mmap.rs: Source.Libc has the calls of libc and its constants as a record, a parameter of all
--     that follows, and what the manual pages of mmap, munmap and madvise say as the records
--     `IsMapper` and `IsAdviser`. Source.Mmap has `MmapSource`, `HugePageSource` and
--     `madvise_dontneed`, Source.Touch the loop of `prefault`. Keeps and Select below Source.Mmap, and
--     Pool.Advise, hold the theorems. Whether debug assertions are on is a parameter of both sources.
--   * src/tenant.rs: Tenant has `TenantStats` and its four methods. The tenants of a program are a
--     function from a number to counters; the number stands for the shared `Arc<TenantStats>`.
--     Tenant.Account relates the counters to what a tenant holds, over any legal history.
--   * src/pool.rs: Pool has `PoolShared` (source, return queue, counters) and `PagePool` (local list),
--     with one function for each method and destructor. Pool.Invariant says that every page is on the
--     local list, on the return queue, or in use, that both lists are intact in memory, and that the
--     counters count; Pool.Linked is the part without the counters. Create has the constructors. Acquire,
--     Reuse, Return, Prewarm, Ready, Write, Rest and Shutdown hold the theorems on the operations.
--   * src/pool.rs with other threads at work: Queue has the accesses of `push_return` and of the owner's
--     `allocate_raw_page` as a step relation. A call of `push_return` stands at one of five points, with
--     the head that it has read; a weak exchange may fail at any time; calls, the owner and writes to
--     pages in use interleave in any order. Queue.Pushes says what the calls own and owe,
--     Queue.Invariant puts this together with the lists, Queue.Bag is the abstract pool: two bags of
--     pages, a quotient of lists by permutation. Calls, Pushing, Owned and Runs go through the steps,
--     Quiet looks at whole runs, Alone and Progress at calls that are left undisturbed.
--   * src/page.rs: Page has the data and destructors of `PageBuilder`, `PageInner` and `Page`,
--     Page.Builder the methods of the builder, Page.Allocate the methods of `PagePool` that hand out
--     builders and pages. World is the state that these calls thread through, and how a call ends:
--     returned, panicked, aborted (a failed allocation that ends the process), or out of fuel. A source that
--     fails does one or the other (`unwinds`); Chunk.Failure says what that leaves of a `ChunkPool`.
--   * src/chunk.rs: Chunk has the data of `ChunkPool`, and the live `Arc<PackedPage>`s as a list of
--     numbers with strong counts; a release of what is not live is recorded in `faulted`.
--     Chunk.Builder has `ChunkBuilder`, `Chunk` and `ChunkInner`; Chunk.Dispatch the four allocation
--     paths, with the loop of `allocate_packed` as `find_room`; Chunk.Allocate the choice between the
--     paths and the methods over it. The invariant has two halves: Chunk.Invariant (every strong count
--     is the number of handles, every buffer has one owner) and Chunk.Carved (the bytes of two builders
--     or chunks never meet, and the open page's cursor lies past all it has handed out); Chunk.Holds
--     puts them together. Chunk.Align, Fit, Claim and Packed hold the theorems on the packed path, Paths,
--     Grant, Oversized and Classes those on `allocate_aligned`, Kept, Spared and Others those on what it leaves of
--     the buffers that are held, Drop and Lifetime those on handles; Isolated, Written, Append, Beside
--     and Copied those on the bytes of one builder and of all the others; Closure, Finish, Outcomes,
--     Filled and Sized those on closures that fill a buffer; Books and Ledger those on the counters.
--     Create has the constructors, Teardown the end of the pool, where the `Arc<PoolShared>`s
--     are counted.
--
-- A `PagePool` and a `ChunkPool` belong to one thread, as in the program. The return queue can be pushed
-- to by other threads. In Pool each `push_return` and each drain runs without interruption, as the pass of
-- the compare-and-swap loop that succeeds does; Queue has the interleavings, and relates its runs to the
-- functions of Pool. The steps of Queue take effect in one order that all threads see. An access to
-- memory of one's own, such as the next pointer of the local list, is part of the step that it belongs to,
-- and so is the counter of drains, which nothing reads.
--
-- Fuel. The loop of `allocate_packed` is given two rounds: a page that was just opened has room for
-- every request that takes this path. The loops over an intrusive list (`local_free_pages` and the
-- destructors) are given a number of rounds, which has to exceed the length of the list. The loop of
-- `MmapSource::prefault` is given a round for each byte of the page and one more; each pass advances by
-- at least one.
--
-- Sizes. A chunk keeps its offset and capacity as `u32`. The definitions truncate as the code does, and the
-- results on chunks are about sizes and pages below 2^32.
--
-- Not modelled: memory orderings weaker than one order of all accesses (the exchange releases and the swap
-- acquires, which is what the crate relies on); the end of a `ChunkPool` while chunks are alive, beyond
-- the handles that keep the shared part; the `Debug` and `Display` implementations, `TenantId`'s text and
-- the trivial accessors; `madvise` on systems other than Linux; what a failed mmap(2)
-- does to memory, which is taken to be nothing; the benches, examples and tests.
pub mod Base
pub mod Memory
pub mod Alloc
pub mod Source
pub mod Tenant
pub mod Pool
pub mod Queue
pub mod World
pub mod Page
pub mod Chunk
pub mod Tests
