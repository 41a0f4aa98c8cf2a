-- ===== src/Ramcloud/Commands.antt =====
-- What holds of several commands of RedisClientYaf.cpp together.
pub mod Safety
pub mod Overloads
pub mod Fetching
pub mod Storing
