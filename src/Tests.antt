-- ===== src/Tests.antt =====
-- Runs on concrete inputs, and the theorems at them.
mod Allocator
mod Basic
mod CacheThreads
mod Faults
mod Recency
mod Report
mod ReportHtml
mod ShardedCache
mod ShardedFifo
mod ShardedLru
mod ShardedThreads
mod StressRuns
mod Suite
mod SuiteBasic
