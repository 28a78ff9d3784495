-- ===== src/Interceptor.antt =====
-- src/qwed_a2a/interceptor.py: the guards (Claim, Logic, Code), the pipeline (Pipeline) and the slots
-- of the engine pool (Slots).
pub mod Message
pub mod Claim
pub mod Logic
pub mod Ast
pub mod Bindings
pub mod Scan
pub mod Decimal
pub mod Financial
pub mod Regex
pub mod Code
pub mod Decide
pub mod Pipeline
pub mod Guard
pub mod Heuristic
pub mod Verdict
pub mod Attested
pub mod RoundTrip
pub mod Contradiction
pub mod Slots
pub mod Examples
