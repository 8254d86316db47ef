-- ===== src/Agent/CloudPrice.antt =====
-- pkg/agent/cloudprice: where the prices of nodes come from.
pub mod Formula
pub mod Options
pub mod Ack
pub mod Eks
pub mod DefaultCloud
pub mod Provider
mod Tests
