-- ===== src/Emulate.antt =====
-- `Emulate` (`microx/Executor.cpp`): the cases by kind, and the switch over the instruction forms.
pub mod Machine
pub mod Branch
pub mod Strings
pub mod Stack
pub mod Dispatch
pub mod Conditions
pub mod Loops
pub mod Outcomes
pub mod Lives
pub mod Rep
pub mod Scan
pub mod StackLaws
pub mod PushAddress
pub mod StackTrip
mod Tests
