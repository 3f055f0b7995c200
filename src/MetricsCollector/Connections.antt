-- ===== src/MetricsCollector/Connections.antt =====
-- The list of established connections.
