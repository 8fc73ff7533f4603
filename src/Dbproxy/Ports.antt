-- ===== src/Dbproxy/Ports.antt =====
-- The port that parseURI of dbproxy/pgbouncer/config.go keeps as an int16.
