-- ===== src/Go.antt =====
-- What the program uses of the Go language and its standard library: errors and panics, `time`,
-- maps and `sort`.
pub mod Result
pub mod Time
pub mod Map
pub mod Sort
pub mod Exec
pub mod Float
pub mod Strconv
pub mod Keys
pub mod Checks
pub mod Traverse
