-- ===== src/Storage.antt =====
-- chainbreaker/storage: the byte formats of the flat-file store, its journal and its recovery.
pub mod Journal
