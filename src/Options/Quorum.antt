-- ===== src/Options/Quorum.antt =====
-- The count that GetMajorityCount returns, as a quorum size.
