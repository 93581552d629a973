-- ===== src/Vm.antt =====
-- The virtual machine under src/vm: `Value` its values, `Object` arrays, objects and the arena, `Slots` what
-- is proved of the arena, `Machine` and `Operators` the arithmetic, `Arrays` the arrays, `Gc` the collector,
-- `Interp` the interpreter and `Classes` the searches among the classes. Of the natives there are `Dates`,
-- civil dates and calendars, `Random` and `Proto`, the wire format of protobuf; `Crypto` is AES-GCM.
pub mod Value
pub mod Object
pub mod Machine
pub mod Operators
pub mod Slots
pub mod Arrays
pub mod Gc
pub mod Interp
pub mod Classes
pub mod Crypto
pub mod Dates
pub mod Proto
pub mod Random
