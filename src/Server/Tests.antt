-- ===== src/Server/Tests.antt =====
-- Addresses of src/util.c on concrete numbers.
