-- ===== src/Types.antt =====
-- The records and enumerations of types.h, over any type of doubles. An `int` that the program
-- only uses as a truth value is a `Bool`, a `char` array is the list of its bytes up to the NUL.
mod Health
mod Telemetry
mod Files
mod Message
pub use Health.*
pub use Telemetry.*
pub use Files.*
pub use Message.*
