-- ===== src/Admin/Guarded.antt =====
-- Who may use the admin pages.
