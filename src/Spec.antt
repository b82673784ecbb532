-- ===== src/Spec.antt =====
-- internal/harness/spec/spec.go: the declarative description of a harness. `time.ParseDuration`
-- enters as a parameter where the code only asks whether a text is a duration.
pub mod Types
pub mod Choice
pub mod Validate
pub mod Valid
pub mod Fixed
pub mod Access
pub mod Tests
