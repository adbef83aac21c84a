-- ===== src/Guard.antt =====
-- internal/sqlguard: the SQL guard.
pub mod Reason
pub mod Token
pub mod Tokenize
pub mod Tables
pub mod Relations
pub mod Ddl
pub mod Validate
pub mod Split
pub mod Strip
pub mod Script
pub mod Statement
mod Tests
