-- ===== src/Http/Pages/Labels.antt =====
-- The labels of the TTLs that a page offers.
