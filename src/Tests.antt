-- ===== src/Tests.antt =====
-- The theorems at concrete inputs: a heap source of 64-byte pages over an allocator that places each
-- block above all that are live.
mod Data
mod OfPool
mod OfPage
mod OfChunk
mod OfTenant
mod OfQueue
mod Kernel
mod OfMmap
mod OfCreate
mod OfLedger
mod OfFilled
