-- ===== src/Record/Tests.antt =====
-- A position and a mass, printed.
