-- ===== src/Orm.antt =====
-- orm/homework3: the SQL builders, the models that they look fields up in, and the sessions; and the
-- first version of the SELECT builder, orm/homework1.
pub mod Syntax
pub mod Output
pub mod Laws
pub mod Select
pub mod Clean
pub mod Balanced
pub mod Names
pub mod Placeholders
pub mod SelectCounts
pub mod Modify
pub mod Compose
pub mod ModifyCounts
pub mod Behaviour
pub mod Session
pub mod Homework1
pub mod Registry
mod Tests
