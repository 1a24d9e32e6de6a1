-- ===== src/Mgmt/Nodes.antt =====
-- What a reset does to a node: its zones start again, and it goes from the full to the free queue.
