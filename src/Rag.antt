-- ===== src/Rag.antt =====
-- app/rag: the chunker (chunker.py) and the ingestion queue (queue.py).
pub mod Chunker
pub mod Rejoin
pub mod Queue
mod Tests
