-- ===== src/Views.antt =====
-- linera-views: the views, which stage changes over a key-value store.
pub mod Queue
