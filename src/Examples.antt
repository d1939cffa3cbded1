-- ===== src/Examples.antt =====
-- The theorems at concrete inputs.
mod Queue
mod Threads
mod Calls
mod Memory
mod Table
mod Nodes
mod WindowsThreads
mod NodeQueue
mod NodeTable
