-- ===== src/Python.antt =====
-- The Python bindings (`microx/Python.cpp`): a client of the executor that asks a Python object for
-- each answer, and the Python type that runs it.
pub mod Api
pub mod Values
pub mod Client
pub mod Module
pub mod Bounds
pub mod Fetching
pub mod ShortReads
pub mod Answers
pub mod Serves
pub mod Raises
pub mod RoundTrip
mod Tests
