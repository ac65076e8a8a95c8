-- ===== src/Memory.antt =====
-- pkg/memory: the append-only store of conversation histories (jsonl.go, store.go) over the atomic
-- file writer of pkg/fileutil.
pub mod Codec
pub mod Disk
pub mod Store
pub mod View
pub mod Refinement
pub mod Recovery
