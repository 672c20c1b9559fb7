-- ===== src/Text.antt =====
-- What the code uses of Go's fmt, strconv and strings.
pub mod Decimal
pub mod Strings
pub mod ParseInt
pub mod IntLiteral
pub mod ParseBase
pub mod ReadBack
pub mod Flag
pub mod LogFlag
pub mod FlagFrame
pub mod Words
