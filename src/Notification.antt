-- ===== src/Notification.antt =====
-- apps/notification-service: one mail for each notification, with retries.
pub mod Retry
pub mod Processor
