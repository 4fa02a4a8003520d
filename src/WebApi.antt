-- ===== src/WebApi.antt =====
-- The web API over the database (src/db/express/src/controllers). The tables and their joins are
-- lists of rows, and a request is the record of its parameters.
pub mod EpochRows
pub mod RewardStats
pub mod NameList
pub mod NameRows
pub mod Filters
pub mod Placeholders
pub mod Examples
pub mod Groups
pub mod Batch
