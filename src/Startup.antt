-- ===== src/Startup.antt =====
-- What the browser does before its window opens: the language, the identity, the first address.
pub mod Random
pub mod Auth
pub mod Texts
pub mod Language
pub mod Address
mod Reading
mod Entries
mod Word
mod Identity
mod Created
mod Examples
