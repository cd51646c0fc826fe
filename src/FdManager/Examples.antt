-- ===== src/FdManager/Examples.antt =====
-- A new table, and a socket behind its end.
