-- ===== src/Lib.antt =====
-- A model of microdbg, a debugger that runs on top of a CPU emulator.
--
-- The program: `Dbg` (internal/debugger/debugger.go) is made of managers: memory, hooks, tasks,
-- files, modules. A task runs emulated code with its registers; hooks take the emulator's events and
-- run callbacks in the current task. The memory manager maps pages through the emulator and keeps a heap on top of them,
-- from which the other parts allocate.
--
-- Word.antt: uint64 arithmetic with its wrap-around, and `Align` (debugger/align.go).
--   Little has the bytes of a word in memory (internal/debugger/pointer.go).
-- Errors.antt: the errors (debugger/errors.go, socket/errors.go), and the outcomes of a call: a value,
--   an error or a panic.
-- Emulator.antt: the emulator's memory calls (emulator/emulator.go). The repository implements no
--   emulator, so it is a parameter: a state, and functions that may answer with any error.
--   `Machine` is its registers and its memory.
-- Pointers.antt and below: emulator/pointer.go. An address; reading a text takes fuel for its chunks of
--   16 bytes, and Pointers/Strings says how much is enough.
-- Streams.antt and below: encoding/stream.go. Interface has `Stream` as a record of operations, and
--   `fakeStream`; Pointers has `pointerStream` (internal/debugger/stream.go); Registers has `regStream`
--   (internal/debugger/arm/stream.go and internal/debugger/arm64/stream.go, which differ in the
--   constants of an `Abi`); Instances makes both instances of the interface.
-- Encoding.antt and below: encoding/. A Go type is a description (`GoType`), as reflection shows it, and
--   a Go value is memory of the Go process (Encoding/Memory), which unsafe pointers reach and where nil
--   faults. Encode and Decode turn a type into a handler and a size, as the code does; Values has
--   `Encode` and `Decode`, Sizes has `EncodeSize` and `DecodeSize`. A client gives the stream's
--   operations; Encoding/Advance states the laws that it wants of them (`Moving`). Floats are their bit
--   patterns.
-- Calls.antt and below: internal/debugger/arm/arm.go and internal/debugger/arm64/arm64.go. Arguments,
--   results, return and the stack of a task, with the constants of a `Cpu`; Calls/Arm and Calls/Arm64
--   have these constants. Calls/RoundTrip says what the code relies on of registers and memory
--   (`Behaves`).
-- Mem.antt and below: internal/debugger/mem.go. RegionMap is a Go map from addresses to sizes, as a
--   sorted list. Maps has `mapStore`, `mapDelete` and `calcOverlap`; Blocks has `memBlock` as a doubly
--   linked list on a store of blocks with a pool, and `InsertAfter`, `InsertBefore` and `Remove` on it;
--   Manager has the state and `memMap`, `memUnmap`, `memProtect`, `mapAlloc` and `mapFree`; Alloc has
--   `memAlloc` and `memSize`, and Free has `memFree`. The list that the store represents is described by
--   Blocks/Chain, and the invariant of the heap by Invariant.
-- Files.antt and below: internal/debugger/file.go. Files has the descriptor table and the operations on
--   it; a `fileRef`, which descriptors share, is a number in a store of references. Files/Handlers has
--   the handlers (debugger/file.go) and the operations that ask them in turn. A file itself, and what
--   closing it does, is a parameter (`Host`), since files come from outside.
-- Hooks.antt and below: internal/debugger/hook.go. Hooks/Controls has the control addresses
--   (`allocCtrlAddrs`, `ctrlAddrAlloc`, `ctrlAddrFree`, `isControl`); the channels that hold them are
--   queues. Hooks/Dispatch has `handleInterrupt`, `handleInvalid` and `handleMemory`, as the functions
--   that run in the current task. Callbacks, the task and the emulator are parameters on a state.
-- Bytes.antt: byte slices as lists. Buffer.antt: internal/debugger/buffer.go.
-- Filesystem.antt and below: filesystem/virtual.go. Filesystem/Contents has a file (`fileFS`) and what
--   an open one (`file`) does: open, seek, read and write. All files are one store, since open files
--   share them. The flags have their values on Linux. Filesystem/Paths has the paths, with what the Go
--   packages path/filepath and strings do to them on Unix. Filesystem/Tree has `fileFS`, `dirFS` and
--   `linkFS` as nodes on a store, with `Sub`, `Stat`, `ReadDir` and `Readlink`; Filesystem/Tree/Changes
--   has `Mkdir`, `Link` and `OpenFile`, and Filesystem/Tree/Handles the open directory `dir`. Entries
--   are in the order in which they came, where the code has the order of a `sync.Map`.
-- Socket.antt and below: socket/socket.go. The Go package net is a parameter (`Net`); Socket/Roles
--   describes a socket as an automaton of four roles.
-- Modules.antt and below: internal/debugger/module.go. What a module's methods return is a parameter.
-- Tasks.antt and below: internal/debugger/runner.go and the reuse of contexts in
--   internal/debugger/task.go. The loop `collection` serves two channels; each service is one function.
--   Tasks/Handover is the hand-over of tasks between the emulator's thread (`asyncTask`, `syncTask`), the
--   goroutine `loop` and the goroutines of the tasks (`runTask`, `handle`), as a step relation in which
--   they take turns in any order. The theorems on it speak of orderly steps (`IsOrderly`), since the
--   code does not prevent others. Tasks/Handover/Invariant holds while the manager is open, and
--   Tasks/Handover/Isolation compares a task with one that has an emulator of its own.
-- Stack.antt and below: `StackAlloc` and `StackFree` of internal/debugger/context.go.
--
-- A function of the code that changes state takes the state and returns the new one. Mutexes are left
-- out: each call is one step. Loops over the free list take fuel; a fuel above the length of the list
-- is enough, as the theorems that have it as a hypothesis show. The first loop of `mapDelete` takes as
-- much fuel as the map has regions, and one more. `ctrlAddrAlloc` takes fuel for its rounds, of which it
-- needs two. In the tree of the virtual file system each call from one node to the next takes fuel: for
-- a look-up, the length of the path times the number of nodes, and the number of the first node, are
-- enough where links lead to older nodes; the Go code does not end on a link to itself.
--
-- Not modelled: the writing of Go values to the heap, which puts the encoding and the heap together; the
-- registries of hooks; the errors of making tasks and contexts, and the functions that `mainThreadRun` hands to
-- the emulator's thread, which leave tasks alone; times of files, and file systems from elsewhere that
-- are linked into the virtual one; the system's own files and connections.
pub mod Base
pub mod Word
pub mod Errors
pub mod Bytes
pub mod Buffer
pub mod Filesystem
pub mod Socket
pub mod Modules
pub mod Tasks
pub mod Stack
pub mod Emulator
pub mod Pointers
pub mod Streams
pub mod Encoding
pub mod Calls
pub mod Mem
pub mod Files
pub mod Hooks
