-- ===== src/Tests/Ways.antt =====
-- From a gateway's address to a pod.
