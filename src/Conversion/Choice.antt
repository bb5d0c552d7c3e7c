-- ===== src/Conversion/Choice.antt =====
-- djmount/charset.c: which charset is chosen, and the life of the module.
