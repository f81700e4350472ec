-- ===== src/Tests.antt =====
-- The theorems at concrete inputs, by the part they are about.
mod Fixtures
mod Messages
mod Tokens
mod Nonces
mod Verifications
mod Captchas
mod Requests
mod Agents
mod Services
mod Approvals
mod Keyring
mod Wrappers
mod Gateways
