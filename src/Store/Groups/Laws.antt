-- ===== src/Store/Groups/Laws.antt =====

