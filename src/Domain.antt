-- ===== src/Domain.antt =====
-- core/vericlose/domain: the vocabulary, the value types and the checks of their constructors.
-- A frozen dataclass is a record, and its `__post_init__` a function that returns the value it
-- stores or raises. The `isinstance` tests hold by the types of the model.
pub mod Enums
pub mod Money
pub mod Events
pub mod Evidence
pub mod Decisions
pub mod Exceptions
pub mod Runs
pub mod Actions
mod Examples
