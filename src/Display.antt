-- ===== src/Display.antt =====
-- cmd/mh2c/output_filter.go, output.go, output_text.go and output_json.go, with internal/framefmt:
-- which frames are shown, the output controller, and the forms in which a frame is written.
pub mod Filter
pub mod Shows
pub mod Reports
pub mod Controller
pub mod Format
pub mod Prefix
pub mod Truncated
pub mod Text
pub mod Json
pub mod Printer
pub mod Printed
