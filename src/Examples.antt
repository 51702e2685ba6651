-- ===== src/Examples.antt =====
-- Each property that has hypotheses, at a concrete input.
pub mod DnsExamples
pub mod SettingsExamples
pub mod SessionExamples
pub mod RoutingExamples
pub mod DeviceExamples
pub mod ApiExamples
pub mod ServerExamples
pub mod SpeedExamples
