-- ===== src/KeyValue/Examples.antt =====
-- Stores and values on which the theorems apply.
mod Memory
mod Sets
