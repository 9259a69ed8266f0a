-- ===== src/Broker.antt =====
-- What the MQTT broker holds for its clients: internal/mqttsrv.
pub mod Offline
