-- ===== src/Proxy.antt =====
-- internal/proxy: the pool of verified proxies, its management, selection and the SOCKS5 client.
pub mod Pool
pub mod Dial
pub mod Managed
pub mod Socks
pub mod Select
pub mod Source
pub mod State
