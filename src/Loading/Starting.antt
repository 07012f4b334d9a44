-- ===== src/Loading/Starting.antt =====
-- When the package starts.
