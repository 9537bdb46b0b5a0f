-- ===== src/Validate.antt =====
-- internal/validate/validate.go
mod Defs
mod Scan
mod Accepts
mod Errors
unfoldable pub use Defs.{is_word, placeholders, declare, prompt}
pub use Defs.{Invalid, uri_empty, template_empty, slot_empty, undeclared, unused}
pub use Scan.*
pub use Accepts.*
pub use Errors.*
mod Examples
