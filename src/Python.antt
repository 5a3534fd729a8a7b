-- ===== src/Python.antt =====
-- The parts of Python that the gateway relies on: texts, JSON values, `int`, and the runtime's
-- nondeterministic services.
pub mod Text
pub mod Json
pub mod Number
pub mod Runtime
