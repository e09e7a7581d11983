-- ===== src/Wasm.antt =====
-- packages/soroban-utils/src/wasm-parser.ts: the variable-length numbers and the custom sections of
-- a WebAssembly file. A byte array is a list of numbers below 256.
pub mod Leb
pub mod Sections
pub mod Validation
mod Tests
