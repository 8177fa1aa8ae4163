-- ===== src/Net/Fragments/Split.antt =====
-- What `Split` of net/Fragmentation.cpp makes.
