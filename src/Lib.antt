-- ===== src/Lib.antt =====
-- doom-fish-utils: utilities that the Apple-SDK bindings of the doom-fish family share. The library
-- models the containers of the `collections` feature, the four-character codes, the channels, the lock
-- and the combinators of the `future` feature, the bounded stream, the `json` feature, and the contexts
-- and strings that cross the C boundary, and proves what makes them correct.
--
-- The parts, and the files that model them:
--   src/collections/slot_map.rs: Collections/Key (`KeyData`, the keys and their `u64` form),
--     Collections/SlotMap (`SlotMap`: slots, free list, versions), Collections/SecondaryMap. A map is
--     related to the finite map `get m` from keys to values; SlotMap/Invariant has the invariant,
--     SlotMap/History the sequences of calls.
--   src/collections/array_vec.rs: Collections/ArrayVec. The array is a list of cells that hold a value
--     or none, and the `unsafe` reads and copies are reads and copies of cells (ArrayVec/Memory), where
--     a cell without a value gives undefined behaviour. ArrayVec/Refine relates it to a list.
--   src/collections/small_vec.rs: Collections/SmallVec, on top of ArrayVec as in the code. `Vec` of the
--     standard library is the list of its values.
--   src/four_char_code.rs: FourCharCode.
--   src/future/mpsc.rs: Future/Mpsc. A function for each critical section; Mpsc/World interleaves the
--     sections of any number of senders with those of the receiver. src/atomic_waker, an adapted copy
--     of another crate's file, is a parameter (Future/Waker): a cell with the operations that the
--     channel calls and their documented behaviour.
--   src/stream.rs: Stream, with Stream/Registry for the list of waiting futures. A function for each
--     critical section, with the wakers that it calls and what it tells the condition variable. A
--     section of `push_or_block` that finds the buffer full answers `blocked`: the thread waits and
--     runs the section again. A panic inside a section poisons the lock.
--   src/future/oneshot.rs, src/future/mutex.rs, src/future/mod.rs: Future/Oneshot (with
--     Oneshot/World, the step relation of the two sides' sections), Future/Mutex (with Mutex/Exclusion,
--     that of its users), and Future/Combinators, where a future is a state with the function that polls
--     it.
--   src/json.rs: Json. A text is the list of its UTF-8 bytes; Json/Reader keeps the text from its
--     position on. Floating-point numbers are a parameter (Json/Value, `Floats`). Json/Writer is
--     `Display`, Json/Convert is `FromJson`, Json/Strings relates reader and writer on strings.
--   src/spsc.rs: Spsc, the ring on its positions and stamps, each operation run alone on the atomics, and
--     Spsc/Sides, the producer and the consumer with their waker. Spsc/Positions splits a position into a
--     round and an index, Spsc/Refine says which list a ring holds, and Spsc/Sides/Calls has the calls of
--     both sides in any order, on the ring and on a list. The interleavings of the atomic steps of a push
--     and a pop that run at once are left out.
--   src/panic_safe.rs: PanicSafe. Code is a function on the user's state and on what the helpers log,
--     drop and leak, and ends by returning, unwinding with a payload, aborting or undefined behaviour.
--     The other C-facing parts use it.
--   src/callback_context.rs: CallbackContext, the allocation behind the `Arc`, with CallbackContext/Users
--     for the calls of the owner and of the C code in any order, where `with` is two steps, its check of
--     the switch and its closure.
--   src/ffi_string.rs: FfiString. C code and the allocator are arguments; Base/Utf8 decodes bytes.
--   src/completion.rs: Completion, the allocation that a handle and a callback share. Completion/Blocking
--     interleaves a waiting thread with callbacks, Completion/Polling a polled future; Completion/Waiting
--     has the loops of the waits, a round for each return from the condition variable.
--
-- Conventions: a `&mut self` method gives the new state beside its result; `Outcome` says whether it
-- returned, panicked, or read memory without a value. Numbers are natural numbers with the wrap-around
-- of their type written out. Loops are structural in the rounds that are left, which are those of the
-- source's `for` loops, or one more than the values that an iterator or the bytes that a reader has
-- left, of which each round takes one at least. A JSON value has 129 levels, since one at depth 128
-- has none inside it. `wait_timeout` has a clock that says how long each wait lasted; it needs two rounds
-- more than there are waits that end early, if the others last longer than the time they were given. A
-- small vector is given the number of values that a `Vec` holds at most. Outside the C-facing parts, the capacity that a `Vec` or
-- a `VecDeque` reserves, allocation failure, and destructors or closures that panic are not modelled.
--
-- Not modelled: src/ffi_callbacks.rs, which has types only; src/atomic_waker, an adapted copy of a file
-- of futures-util, beyond its contract; debug output of every part.
pub mod Base
pub mod Collections
pub mod FourCharCode
pub mod Future
pub mod Stream
pub mod Json
pub mod PanicSafe
pub mod CallbackContext
pub mod FfiString
pub mod Completion
pub mod Spsc
