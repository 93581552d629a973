-- ===== src/Lib.antt =====
-- A verification library for dexvm, a virtual machine for Android's DEX byte code that runs
-- extension packages inside a host.
--
-- The program reads a DEX file (src/dex: a bounds-checked cursor, the class data and encoded
-- values over it, then the decoder of instructions), loads classes, and interprets the decoded
-- instructions (src/vm/interpret.rs) over a heap of objects (src/vm/object.rs) that is
-- collected between top-level calls (`Vm::gc` in src/vm/mod.rs). What a guest may do outside
-- the machine is decided by a store of grants (src/permission.rs). The natives that stand for
-- the Java library (src/vm/native) use the machine's own AES-GCM (src/vm/crypto.rs), calendar
-- (src/vm/native/java/civil.rs) and protobuf reader (src/vm/native/proto.rs).
--
-- The files:
--   Prelude            library names, Boolean tests, lists under native indices, results; Bits, Int and
--                      Xor the laws of bits, signed integers and `^`
--   Dex/Error          `DexError` of src/dex/read.rs and the results of the decoders
--   Dex/Cursor         `Cursor` of src/dex/read.rs, one function for each method; the children have the
--                      fixed reads (Reads), the two LEB128 readers (Leb, LebRead, SlebRead) and the rules
--                      for readers that stay inside the buffer (Safe)
--   Dex/Mutf8          `decode_mutf8` of src/dex/read.rs, with RoundTrip
--   Dex/Values         `EncodedValue` and its `decode` of src/dex/mod.rs, with Ends
--   Dex/ClassData      `parse_class_data` and `parse_code_item` of src/dex/mod.rs, with Ends, Fields, Tries
--                      and Items
--   Dex/Ensures        what a fallible computation ensures of its value
--   Dex/Insn           the types of src/dex/insn.rs; Match, Units and Basic the match on opcodes and
--                      the reads of units, Payload the tables of switches and arrays, Control, Access
--                      and Arith the arms of `decode`, Decode `decode` and `decode_all`; Spans,
--                      Formats, Bounds, Scan and Tiling the proofs
--   Permission         src/permission.rs: Path, Host and Grants the code, PathRules, HostPorts,
--                      HostRules and Rules the proofs
--   Vm/Value           `JValue` of src/vm/value.rs
--   Vm/Object          arrays, objects and the arena of src/vm/object.rs; Vm/Slots the proofs
--   Vm/Arrays          `ArrayData` and the array instructions, with Vm/Arrays/Rules
--   Vm/Machine         the wrapping integer operations of Rust that the interpreter uses
--   Vm/Operators       `binop`, the unary operators, comparisons and conditions of
--                      src/vm/interpret.rs, with Rules and Order
--   Vm/Interp          the interpreter of src/vm/interpret.rs: frames, registers and the search for an
--                      instruction; Linker what it asks of the rest of the machine; Registers, Arms,
--                      Members and Step the step; Unwind, Call and Loop exceptions, calls and the loop;
--                      Entry, Fetch, Constants, Monitors, Effects, Budget, Keeps, Nearest and the
--                      children of Loop the proofs
--   Vm/Classes         the searches of src/vm/mod.rs along superclasses (Chain) and interfaces
--                      (Worklist, Interfaces) over the `Class` of src/vm/class.rs; Assignable
--                      `is_assignable`, with Subtypes, Interfaces, Elements and Verdicts; Resolve
--                      `resolve_target` up to the slot, with Methods; Initialize
--                      `ensure_class_initialized`
--   Vm/Gc              `Vm::gc` of src/vm/mod.rs, with Marking, Sweep and Cycle
--   Vm/Crypto          `Gcm` of src/vm/crypto.rs, with RoundTrip, Counters and Field
--   Vm/Proto           `read_varint` and `parse_wire` of src/vm/native/proto.rs, with Varint, Fields,
--                      Message and Ends
--   Vm/Dates           civil dates and instants of src/vm/native/java/civil.rs, with Years, Days,
--                      FromDays, RoundTrip, Months and Instants; Calendar the fields of
--                      src/vm/native/java/util/calendar.rs and, with Fields, the dates of
--                      src/vm/native/java/time/local_date.rs
--   Vm/Random          java.util.Random of src/vm/native/java/util/random.rs, with States and Bytes
--   Examples           runs, and each theorem at a concrete input
--
-- How the models stand to the code. A byte, a code unit and an integer of the machine is a
-- natural number below the power of two of its width, a signed one in two's complement, with
-- the wrap-around written out. Strings are their bytes. A method that changes its object takes
-- and returns the state. An error is a value; `stuck` of `Result` and `none` of the collector
-- stand for a loop that ran out of fuel, and the theorems show that neither occurs:
-- `decode_all` has one round for each unit of the code, since every round passes one unit at
-- least, `mark_loop` has one for each object, since an object is pushed once, and the LEB128
-- loops have five; the interpreter's loop has one for each unit of the budget, which the source
-- itself counts down, `search_interfaces` one for each interface of a class, and the searches
-- along superclasses the rank of the class. A panic of the source is `none` in Vm/Value,
-- Vm/Arrays and the calls of Vm/Interp, `panicked` in Vm/Proto, and `panics` elsewhere. A
-- nested value of Dex/Values has one round more than the bytes that are left, since every level
-- reads one byte at least; the loop over a message has one for each byte, a varint ten, and the
-- cut of a text into blocks one for each byte. The step is an action on the running frame and
-- the machine around it; an exception of the guest is its result `throws`. A hash map is the
-- list of its entries.
--
-- Parameters: the file system and the current directory (`FileSystem` in Permission/Path), and
-- the arithmetic of floats and doubles (`FloatOps` in Vm/Operators), and the block cipher of
-- the aes crate (`Gcm` of Vm/Crypto holds it), of which the theorems ask that its blocks have
-- sixteen bytes. The interpreter takes the rest of the machine (classes by index, field and
-- method references, strings, exceptions, natives) as `Linker`, a record of operations on the
-- machine; of it the theorems ask at most that no operation raises the budget, or that the
-- calls for the types of the handlers of the frames answer, with the thrown object in the
-- arena. `is_assignable` takes the types of the loaded dex files, `start_class` the loaded
-- classes of java.lang.Object and of the reference, `ensure_class_initialized` the run of a
-- method and the slot of <clinit>, and `decode_mutf8` the lossy conversion of Rust's library.
-- The binary searches of the source are written for the sorted vectors that they are made for.
--
-- Not modelled: the header and the tables of `DexFile::parse` and the signature annotations
-- (src/dex/mod.rs), class loading and the target of a resolved slot (src/vm/mod.rs), `run` and
-- `push_frame` with the depth limit, the debug output, the protobuf decoder's shims for the guest,
-- the rest of the calendar's shims (names, time zones, formats), the floats and the seeds from the
-- clock of java.util.Random, and the other shims under
-- src/vm/native, which are glue to libraries and I/O. Of the native payloads other than arrays only
-- the values that the collector follows are kept. The texts of errors and exceptions are named, not
-- built.
pub mod Prelude
pub mod Dex
pub mod Permission
pub mod Vm
pub mod Examples
