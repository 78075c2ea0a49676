-- ===== src/Tests.antt =====
-- Concrete inputs: the theorems at values that meet their hypotheses, and runs of the functions.
mod Proxies
mod Tunnels
mod Core
mod Updates
mod Bridges
mod Listings
mod Applies
mod Controls
mod Configs
mod Integration
mod Entries
mod Supervisors
mod States
