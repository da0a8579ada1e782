-- ===== src/Lib.antt =====
-- Starlight, a JavaScript engine in Rust: the data model of its virtual machine with its objects
-- and promises, and its collector with marking, blocks, large objects and sweeping, as functions, with what they guarantee.
--
-- The parts (paths from the root of the repository):
-- - Attributes: crates/starlight/src/vm/attributes.rs. A `u32` of flags for each property. A method with
--   `&mut self` returns the new word. Attributes/View reads a word as one Boolean for each flag.
-- - Value: `new_value::JsValue` of crates/starlight/src/vm/value.rs and
--   crates/wtf-rs/src/pure_nan.rs. A value is its 64 bits; doubles are given by their bits. `f64`
--   arithmetic and the text of a `JsString` cell come in through the record `Host`.
-- - Property: crates/starlight/src/vm/property_descriptor.rs. Descriptors (the union is a data type with
--   its two layouts), stored properties, and the three steps of [[DefineOwnProperty]]:
--   `is_defined_property_accepted`, `merge` and `new` (Property/Define). The `Accessor` cells are
--   a function from addresses; the address of a new cell is a parameter, `place`. `none` stands for a failed
--   assertion or the read of the other layout of the union.
-- - Slot: crates/starlight/src/vm/slot.rs. The record behind the inline caches, and sequences of calls on it.
-- - ArrayStorage: crates/starlight/src/vm/array_storage.rs, over the raw loops of value.rs
--   (ArrayStorage/Memory). Words are a function from the index, every access is checked against the
--   capacity, and `none` is an access outside or a failed assertion. The content of a new
--   allocation is a parameter, `fresh`.
-- - Block: crates/starlight/src/gc/block.rs. The cells of a block, pointers into them and the free
--   list, whose memory is the `next` field at each address. The offset of the data in a block is a
--   parameter, `header`.
-- - BlockAllocator: crates/starlight/src/gc/block_allocator.rs. The blocks cut from a mapping and those given back.
--   BlockAllocator/Owned has its clients as a step relation. The start of the mapping and the number of
--   spurious failures of the exchange are parameters; the loop is structural on that number.
-- - LocalAllocator: `LocalAllocator::allocate` of crates/starlight/src/gc/allocation.rs, over BlockAllocator and the free
--   lists of Block. LocalAllocator/Ready has the free cells of an allocator as one list.
-- - SpaceBitmap: crates/starlight/src/gc/space_bitmap.rs with `round_down` and `round_up` of
--   crates/starlight/src/gc.rs. SpaceBitmap/Race has the loop of `atomic_test_and_set` as a step relation, one
--   atomic access in each step, for any number of threads.
-- - Structure: crates/starlight/src/vm/structure.rs. The hidden classes on a heap that is written out: an
--   address is the number of an allocation, tables are shared by address, and `alive` says which weak
--   references can still be upgraded. `none` is a failed assertion, an `unwrap` of nothing, or fuel
--   that does not last: the walk along a chain gets the address of the structure as its fuel, since a
--   structure is allocated after the ones that it leads to. Structure/Shape has the map from names to entries
--   that a chain stands for, Structure/Capacity the numbers of slots that `storage_capacity` gives.
-- - Object: crates/starlight/src/vm/object.rs and crates/starlight/src/vm/indexed_elements.rs. Object/Elements has the two
--   representations of indexed elements, Object/Element the map from indices to stored properties that they stand
--   for, Object/Defs the state of an object, Object/Index the indexed methods, Object/Named the methods
--   for names over Structure and ArrayStorage, and Object/World objects that lead to each other by their
--   prototypes, with [[Put]]. The call of a setter is a parameter. The loops over prototypes take
--   fuel, and the length of the chain is enough. The record `Engine` gathers what comes from outside: the
--   `Host`, the address of a new cell, the weak references that live, the content of new memory. The
--   methods are those of an ordinary object; its class, its tag and its native data are left out.
-- - Sweep: `LocalAllocator::sweep` of crates/starlight/src/gc/allocation.rs with `Block::walk`. The bitmaps are sets
--   of the addresses of cells, each of which has a bit of its own; the calls of destructors are recorded in the
--   order made.
-- - SizeClasses: the table of crates/starlight/src/gc/allocation.rs and the choice of a class. The progression of sizes
--   is computed with floating-point numbers there and is a list that is a parameter.
-- - LargeObjects: crates/starlight/src/gc/large_object_space.rs. An allocation is its record; mimalloc comes in as the
--   address that it returns and as `owns`, what it says of an address. What it is asked to free is recorded.
-- - Collector: `Heap::collect_internal` of crates/starlight/src/gc.rs with the `SlotVisitor`, the weak
--   references and `Space::mark` and `Space::sweep` of crates/starlight/src/gc/allocation.rs, on one thread. What the `trace` of
--   a cell visits is a function from addresses, the words of the stack too, and what the constraints visit is a
--   list. `in_bitmap` says which addresses the bitmap has, and `outside` what a
--   test of the others reads. A bitmap is its test on addresses, the same for the 16 bytes of a granule, so that
--   words near the address of a cell are taken for pointers to what begins there. `process_worklist` takes fuel, and one for
--   each address that is taken for a pointer is enough, since it enters the worklist when it stops being white.
-- - Promise: crates/starlight/src/vm/promise.rs with `schedule_async` of crates/starlight/src/vm/context.rs. A promise is the
--   number of its object. The jobs that are scheduled are a list; the call of a function, whether there is a
--   scheduler, and the array of a list of values are parameters. The loops of a job run over the
--   subscriptions that are there when they start.
-- - Snapshot: crates/starlight/src/gc/snapshot/serializer.rs and crates/starlight/src/gc/snapshot/deserializer.rs. The format
--   of a type is its `serialize` and its `deserialize_inplace`; structs are formats one after the
--   other (Snapshot/Cells, Snapshot/Classes). The maps of references and symbols, which both sides only read here,
--   are records. The fields of a cell in the heap are records of addresses. A `HashMap` that is looked up
--   is a list of pairs.
-- - Common: names that all share, lists, association lists (Common/Maps), and the binary digits of native
--   numbers (Common/Bits, Common/Masks, Common/Smear).
--
-- A `StoredSlot` holds a `JsValue` and an `AttrSafe`; descriptors hold an `AttrExternal`; an array
-- holds `JsValue`s; a `Slot` is filled from a `StoredSlot`. An object finds its names in a `Structure`, keeps
-- their values and its dense elements in an `ArrayStorage`, redefines with the steps of Property, and
-- leaves what it found in a `Slot`. A collection marks what the
-- stack and the roots lead to, in a `SpaceBitmap` or in the header of a large object, clears the weak
-- references to the rest, and sweeps the large objects and the blocks. Sweeping reads the marks of a
-- `SpaceBitmap` and rebuilds the free list of a `Block`, which is at an address that a `BlockAllocator` gave
-- out. Numbers are native, a wrap-around is written out. The other loops are structural on the number of words that are left and need no fuel.
--
-- Not modelled: the compiler to bytecode, the interpreter and the native functions of the library (they
-- run user code and a third-party syntax tree), marking by threads, the allocation of `Space` with its
-- choice between blocks and large objects, and of the snapshots the code blocks, the objects with their
-- native data, the tables of references and symbols and the passes over the heap. In object.rs: the enumeration of names, freeze and seal, DefaultValue, copies,
-- and the methods of other classes. In structure.rs: the cached prototype chain and `get_own_property_names`.
-- In value.rs and property_descriptor.rs: what calls user code. In
-- promise.rs: `JsPromise::new`, which calls the executor, and the reads of the promises from an array.
pub mod Common
pub mod Attributes
pub mod Value
pub mod Property
pub mod Slot
pub mod ArrayStorage
pub mod SpaceBitmap
pub mod Structure
pub mod Block
pub mod BlockAllocator
pub mod Collector
pub mod LargeObjects
pub mod LocalAllocator
pub mod Object
pub mod Promise
pub mod SizeClasses
pub mod Snapshot
pub mod Sweep
