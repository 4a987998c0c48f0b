-- ===== src/Rag.antt =====
-- The chunking of documents, bmt_ai_os/rag/chunker.py.
pub mod Words
pub mod Chunker
mod Tests
