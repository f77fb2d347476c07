-- ===== src/Lib.antt =====
-- arcJIT: the graph of the optimiser, its rewriting passes, the arithmetic of the code that it makes,
-- and the engines that decide on speculation.
--
-- The program interprets bytecode and compiles it in tiers. The second tier builds a Sea-of-Nodes graph, the passes
-- rewrite it, and the data nodes that are left become instructions of the first tier's code. The
-- engines of src/machinery count samples, deoptimisations, clones and assumptions, and tell the
-- compiler what to speculate on and which code is no longer valid.
--
-- Core: src/core/node.h, src/core/graph.h, src/core/bitmask.h and src/core/verifier.cpp.
--   Core/Node has the kinds, the flags and the record of a node. Core/Graph has the state of the class
--   Graph (the nodes, the edge pool, the pool of uses and the head of each node's list of uses) and its
--   operations under their names: add_node, inputs_of, inputs_of_kind, uses_of, replace_input,
--   replace_all_uses_with and mark_dead. Indices are numbers whose 32-bit (u32) and 16-bit (u16) casts
--   are written out. Core/Graph/Layout says what an addition adds and Core/Graph/Redirect what a
--   replacement redirects. Core/BitSet is the class NodeBitSet of src/core/bitmask.h; a word of 64 bits
--   is the function that gives its bits. Core/Verifier is verify_graph of src/core/verifier.cpp with its
--   checks; Core/Verifier/Accepted says what a graph without errors is.
-- Tier1: src/tier1/tier1.cpp.
--   Tier1/Alu gives what the instructions of each arithmetic operation leave in rax, as numbers below
--   2 ^ 64. Tier1/Pow is the squaring loop.
-- Tier2: src/tier2/tier2.cpp.
--   Tier2/Apply gives the operation that a data node becomes, from the kinds that emit_data_node_ treats.
-- Passes: src/passman/pass.h and src/passman/pass.cpp.
--   Passes has what the passes share, with the loop over a graph that grows. Passes/ConstFold,
--   Passes/AlgebraicSimp, Passes/CompareFold and Passes/StrengthReduce are the bodies of run of
--   ConstantFoldingPass, AlgebraicSimplificationPass, ComparisonFoldingPass and StrengthReductionPass,
--   each as a choice for a node and its application. The proofs are in the modules below them.
--   Passes/Meaning has the values of nodes: an assignment that gives each data node what its code
--   computes from its inputs. A pass keeps the meaning if its graph has such an assignment in which
--   every old node has its old value and every old edge reads the value it read before. Passes/Rewrite,
--   Passes/Replace and Passes/Inputs show it for the operations, Passes/Loop for a loop, and
--   Passes/Terminate shows that the loops end.
--   Passes/Gvn is GVNPass; Passes/Gvn/Numbered says that the key of a node determines its value.
--   Passes/Dce, Passes/Escape, Passes/Inline and Passes/Narrow are DeadCodeElimPass,
--   EscapeAnalysisPass, CallInliningPass and TypeNarrowingPass, which change nodes in place;
--   Passes/Local is the argument that they share. Passes/Bounds, Passes/Forward and Passes/Unroll are
--   BoundsCheckEliminationPass, LocalForwardingPass and LoopUnrollingPass, and Passes/Branch is
--   BranchFoldingPass. Passes/Pipeline is the class PassPipeline over any passes, each a state with its
--   cached analysis.
-- Bytecode: src/bytecode.
--   Bytecode/Chunk has the opcodes, the emitters and patches of the class Chunk and the reads of
--   BytecodeReader (chunk.h); a read past the code, which is undefined, has no result.
--   Bytecode/SymbolTable is the class of symbol_table.h with its probing, its growth and its
--   tombstones.
-- Interp: src/interp/interpreter.h with src/bytecode/value.h, value.cpp and heap.h.
--   Interp/Value has values and the objects they name; the heap is the list of objects made so far.
--   Interp/Arith has the operations on values, for the fast cases of the dispatch loop and for
--   do_arith_slow_; the arithmetic of doubles is a parameter. Interp/Machine is one round of the
--   dispatch loop in one frame, for every opcode but those on variables, calls, collections and
--   properties, and Interp/Machine/Handlers is the loop around it with handle_error.
-- Machinery: src/machinery.
--   Machinery/Fuse (fuse.h), Machinery/Governor (governor.cpp), Machinery/Meter (meter.h, meter.cpp),
--   Machinery/GroundFault (ground_fault.h), Machinery/Trip (trip.cpp), Machinery/Watchdog (watchdog.cpp),
--   Machinery/Regulator (regulator.h), Machinery/Capacitor (capacitor.cpp) and Machinery/Relay
--   (relay.cpp). Unordered maps are association lists; the order of a set, which the library leaves
--   open, is that of insertion. A mutex makes each operation one step. The callbacks of the watchdog
--   are code of its clients, so the model records their calls.
--
-- Bounds and fuel. The loop of a pass reads the size of the graph anew in each round; it runs on four
-- rounds for each node, and Passes/Terminate shows that more change nothing: a weight of at most three
-- per node falls with each visit. The loop of the strength reduction over the bits of a constant runs on
-- 64 rounds, the squaring loop on seven, as many as the numbers have bits. The walks over a list of uses
-- run on the size of the pool of uses, a probe of the symbol table on the number of its slots, and the
-- passes that add no node on the number of nodes. A growth of the symbol table nests no other. The
-- dispatch loop of the interpreter need not end, so its fuel is an argument of the theorem on errors. The theorems on passes ask for room: eight nodes and edges for
-- each node of the graph below the limits of the 32-bit indices. A read outside a vector, which is
-- undefined in the program, gives a default value; the theorems state the ranges that they need. The
-- ratio of doubles in a profile is kept as a fraction; its test agrees while the samples are fewer than
-- 2 ^ 49.
--
-- Not modelled: reachability pruning, loop invariant and global code motion and the
-- dominators that they read, the interpreter's variables, calls, collections and
-- properties, reference counts, the runtime, the building and scheduling of the graph, emission through
-- asmjit (a library outside the repository), the probe, output and measurement.
pub mod Prelude
pub mod Core
pub mod Tier1
pub mod Tier2
pub mod Passes
pub mod Machinery
pub mod Bytecode
pub mod Interp
