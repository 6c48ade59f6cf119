-- ===== src/StateKeys/Snapshot/Promises.antt =====
-- What a composed snapshot promises.
