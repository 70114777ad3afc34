-- ===== src/Tests.antt =====
-- Examples: each applies a theorem of the library at concrete input.
mod Data
mod Server
mod ServerLaws
mod Copies
mod Api
mod Desired
mod Dnsmasq
mod Config
mod Controller
mod Converge
mod Rbac
mod Foreign
mod Wiring
