-- ===== src/Sdk/Strategy.antt =====
-- totoggle_go/internal/strategy: one evaluator for each type of rule. An evaluator is given the
-- rule, the context key's value, and whether there is one.
pub mod MatchList
pub mod Window
pub mod Percentage
pub mod Ip
pub mod Registry
