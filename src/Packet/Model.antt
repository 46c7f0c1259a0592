-- ===== src/Packet/Model.antt =====
-- internal/packetissuance/model.go. A pointer that may be nil is an Option; `errors.New(code)` is a
-- constructor of `Code`.
mod Errors
mod Records
mod Equal
pub use Errors.*
pub use Records.*
unfoldable pub use Equal.*
