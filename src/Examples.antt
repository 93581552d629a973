-- ===== src/Examples.antt =====
-- Runs of the models on small inputs, and each theorem at one of them.
mod Decoder
mod Arithmetic
mod Memory
mod Grants
mod Interpreter
mod SmallLinker
mod Unwinding
mod Hierarchy
mod Strings
mod Initializing
mod Sealing
mod Messages
mod Calendars
mod ClassFiles
mod Generators
