-- ===== src/Webhook.antt =====
-- webhook/: receiving and sending webhook deliveries.
pub mod Inbound
pub mod Delivery
