-- ===== src/Transport.antt =====
-- lib/FreeRTOS/network_transport/freertos_plus_tcp: the transports, and the sockets that they hold.
pub mod Network
pub mod Sockets
pub mod Plaintext
pub mod Tracking
pub mod Opening
pub mod Sessions
pub mod TlsCalls
pub mod Tls
pub mod TlsSockets
pub mod TlsStages
pub mod TlsOpening
pub mod TlsStale
pub mod TlsErrors
pub mod TlsStatus
pub mod TlsVerified
pub mod TlsSafety
mod Tests
