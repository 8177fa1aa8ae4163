-- ===== src/Net/Fragments/Laws.antt =====
-- Reassembly gives back the payload, whatever the order of its fragments and however often they come.
