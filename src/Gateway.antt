-- ===== src/Gateway.antt =====
-- GatewayCore (core/gateway.hpp, core/gateway.cpp): the two-bus forwarding core.
-- `State` holds its fields, `Queues` the ingress and egress rings, `Forward` the path of one
-- frame, `Poll` the loops of the CAN task, `Settings` the setters and the statistics buffers.
pub mod State
pub mod Latency
pub mod Queues
pub mod Settings
pub mod Forward
pub mod Poll
pub mod Snapshots
