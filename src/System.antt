-- ===== src/System.antt =====
-- The programs joined: the agent's container as the webhook builds it, the agent that is started
-- in it, and the federation service that answers the agent.
pub mod Launch
pub mod Wire
pub mod Fetch
pub mod Journey
pub mod Stop
pub mod Exit
pub mod Probe
pub mod Discovery
pub mod Verified
pub mod Admitted
pub mod Resolved
pub mod Stored
pub mod Arrival
pub mod Rotated
pub mod Keys
mod Tests
