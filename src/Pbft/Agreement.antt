-- ===== src/Pbft/Agreement.antt =====
-- Replicas of consensus/obcpbft/pbft-core.go that work together: what a prepared certificate says
-- of the replicas behind it, the network, and agreement.
pub mod Backers
pub mod Network
pub mod Boot
pub mod Safety
