-- ===== src/Ingest/Runner/Claims.antt =====
-- Which sources a claim takes.
