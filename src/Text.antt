-- ===== src/Text.antt =====
-- Go strings: sequences of bytes, with the functions of `strings`, `strconv` and `unicode/utf8` that
-- the program calls.
mod Strings
mod Case
mod Space
mod Utf8
mod Decimal
mod Print
pub mod Regex
pub mod Split
pub use Strings.{Bytes, ==_iff, ==_refl}
unfoldable pub use Strings.{lit, ◌==◌, has_prefix, has_suffix, contains}
unfoldable pub use Case.{fold_case, equal_fold, to_lower}
pub use Case.{lower_byte, to_lower-ascii}
unfoldable pub use Space.{trim_space}
unfoldable pub use Utf8.{valid_utf8, to_valid_utf8}
unfoldable pub use Decimal.{is_digit, parse_int}
unfoldable pub use Print.{show_int}
