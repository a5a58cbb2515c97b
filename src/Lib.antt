-- ===== src/Lib.antt =====
-- Saurus is a virtual machine in C for a Lisp with persistent data structures. This library models
-- its data structures and proves that they do what the instructions of the machine rely on.
--
-- Base        names and lemmas that the other modules share; how a C function ends (`Run`).
-- Vector      the persistent vector of src/vm/seq.c: vector_create_empty, vector_length,
--             vector_index, vector_push, vector_set and vector_pop, with push_tail, insert (here
--             node_set) and pop_tail on nodes. Its children prove that a vector stands for a list.
-- HashMap     the persistent hash map of src/vm/seq.c. HashMap itself has the nodes, their
--             constructors and find; Bits the arithmetic of MASK, BITPOS and bitmaps; Update the set
--             functions of the node classes; Without their without functions; Table map_get,
--             map_insert, map_remove, map_length and map_create_empty. The other children are proofs:
--             Trie, Digits, Positions and BitLaws on the shape of the trie, Arrays and Create on arrays
--             of children, Written to TableInsert on inserting, Removed to TableRemove on removing,
--             and History on sequences of calls.
-- Gc          the collector of src/vm/gc.c with gc_insert_object of src/vm/core.c: begin, scan, end,
--             gc_trace and su_gc on a list of objects with an address, flags and references. Mark has the
--             invariant of marking and Gray that add_to_gray keeps it, Scan and Sweep the two phases,
--             Cycle and Collect the collection, Insert the insertion. A function's pointer to a prototype
--             inside another one is no reference: the collector does not follow it.
-- Reader      the buffered reader of program images in src/vm/core.c: buffer_open, buffer_read and
--             verify_header. Stream proves what is read, Header what is accepted. The reader callback
--             is the list of the chunks that it gives.
-- Seq         cells and the iterator over a vector of src/vm/seq.c: cell_create, cell_create_array,
--             it_create_vector, it_create_string, seq_first and seq_rest. Walk proves what a walk by
--             seq_first and seq_rest gives; its fuel is the number of values at least.
-- Image       program images. Image itself has read_string and read_prototype of src/vm/core.c as
--             functions on the buffered reader; Load has su_load up to its call of lambda; Write has the
--             encoders of src/compiler/writebin.c with compile_func and compile of
--             src/compiler/compile.lua. Written says what image a function has and when it fits its
--             fields, independently of both. Decodes, RoundTrip, Ends and Loaded are proofs.
-- Vm          the virtual machine of src/vm/core.c. Vm itself has the instructions that work on the
--             stack alone; State the machine; Hash murmur, hash_value and value_eq; Strings
--             string_from_db and create_value; Closures lambda, push_varg and the globals; Calls
--             OP_CALL, OP_TCALL and OP_RETURN; Step decoding, the other instructions and the loop of
--             vm_loop; Arguments su_check_arguments; Api the functions that a native function calls,
--             with those of src/vm/ref.c; Natives the native functions on vectors and maps of
--             src/vm/libseq.c and on references of src/vm/lib.c; Sequences those on sequences, with
--             su_list, su_first, su_rest, su_cons and su_seq; Library libseq, which registers the
--             native functions; Host what an embedding program calls, with su_init, su_load and load
--             of src/vm/lib.c; Call su_call with the loop. The proofs are Logic (what is true),
--             Depth, CallBounds, Bounds, LibraryBounds and LibraryRuns (the stack), Returns,
--             TailCalls and HostCalls (calls), Interned and Interning (strings), Starts (su_init), Globals,
--             Variadic (functions of any number of arguments), NativeMaps, NativeVectors and NativePush
--             (maps and vectors from the program's side) and Lists (lists from there).
-- Tests       concrete values for every part, and the theorems at them.
--
-- Memory. Nodes of vectors and maps are never written once they are linked, so a node is modelled by
-- its contents, and a copy with memcpy by a function on lists. Where the C code compares the node that
-- a call returned with the node it called, the model's call says whether it returned that node.
-- Allocation and the registration of new objects with the collector are left out of these parts; an
-- allocation is taken to succeed.
--
-- Failure. `raise` is a call of su_error, which leaves the function by longjmp. `fault` is undefined
-- behaviour: an access out of range, an int past its bound, a shift by the width or more. The theorems
-- show that well-formed data never reaches it.
--
-- Numbers. An int that the code only uses from 0 up is a natural number, and cnt + 1 faults from 2^31
-- on. A hash is its 32 bits as a number below 2^32, and `h >> s` is written out for the sign bit. A
-- bitmap is the list of its 32 bits, the lowest first. Two's complement, an arithmetic right shift and
-- `1 << 31` as the lowest int, with the greatest int one below it by wrap-around (the bit of digit 31 and
-- its `bit - 1` in idx_node_index), are taken for granted, as by the compilers the code is written for.
--
-- Levels. A vector's node at level d + 1 holds nodes of level d: the depth is in the type, and the
-- source's shift is 5 (depth + 1). The set of a map takes fuel, one unit for each level of the trie;
-- 8 units are given, and with 32-bit hashes of 5 bits a level no call on a well-formed trie uses more,
-- as the theorems on inserting show. The other functions are structural.
--
-- The keys and values of a map are a parameter, with value_eq on each as a Boolean test (`Equality`).
-- The theorems ask that it is an equivalence on keys, that a value is equal to itself, and that equal
-- keys have equal hashes (`EqualityLaws`, `HashLaws`).
--
-- The machine. The stack is a list with its top first; STK(-k) is its element k - 1, and s->stack[i]
-- counts from its end. A cell above the top or below the bottom faults, though C finds old values
-- there; so does a frame below the first. An object of the machine has its type and its place in the
-- heap's list of objects of that type; these lists only grow, as nothing is freed. Where the C code returns the map or vector
-- that it was given and not a new one, so does the model (insert_keeps, remove_keeps). A call that raises
-- gives up its state, since what catches the error starts from its own. `Platform` stands for what the
-- code leaves to its surroundings: the operations and bytes of a double, the bytes of a union that a
-- write to a smaller member leaves, the addresses of objects, and the native functions.
--
-- Program images. Words are little-endian, and a char has 8 bits. `Representation` is the bytes of a
-- double in an image and back. read_prototype takes fuel, one unit for each level of nested functions:
-- with as many as the function has levels the image is read whole, and with more than the stream has
-- bytes it never runs out, as the theorems of Image/Loaded show.
--
-- Not modelled: the iterators of src/vm/seq.c that have no callers, su_close, native pointers and native data,
-- su_stringify, the collector's calls inside the loop, printing, what free_object gives back to
-- the allocator, and the parts of src/vm/lib.c that read files and clocks or print: they are input
-- and output.
-- The REPL, the compiler's
-- front end in Lua, generated code and the copy of Lua are outside the library.
pub mod Base
pub mod Vector
pub mod HashMap
pub mod Gc
pub mod Reader
pub mod Image
pub mod Seq
pub mod Vm
pub mod Tests
