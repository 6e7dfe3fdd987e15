-- ===== src/Lib.antt =====
-- The verification library of truth, a compiler and decompiler for the script files of the Touhou
-- games. Paths below are from the repository's root.
--
-- Parts and files:
-- - Base: Boolean tests, lists, association lists and binary digits over the native numbers.
-- - BitSet: src/bitset.rs. A `BitSet32` is its mask, and an operation that changes it returns the new
--   mask. BitSet/Membership says what a set contains after each operation, BitSet/Iteration what the
--   iterator yields.
-- - DiffSwitch: src/diff_switch_utils.rs. A switch is a list of optional cases; a panic is `none`.
-- - DiffFlags: src/context/diff_flags.rs. A string is the list of its code points.
-- - Int32, Ast, Value: the integers of the language, src/ast/mod.rs (expressions and operators) and
--   src/value.rs. An `i32` is its bit pattern, a number below 2 ^ 32. The floats are a parameter,
--   `FloatOps`, with the operations of `f32` that the program uses.
-- - ConstEval: the operators at constant operands, in src/passes/const_simplify.rs.
-- - ConstSimplify: the pass of that file. A visit returns the new expression and whether an error was
--   reported. It reads the constants from the cache that Consts fills.
-- - Consts: src/context/consts.rs. The cache of values is threaded through the evaluation. The fuel
--   stands for the depth of constants that depend on one another: the number of definitions and one
--   more, since a constant that is being computed is not entered again. What the cache holds after an
--   error is not described.
-- - Vm: src/vm.rs. The state of the machine and the evaluation of expressions on it, which returns the
--   new machine. Vm/Refines compares evaluations, Vm/Constants is about the variables that are
--   constants, Vm/Simplified joins the machine with ConstSimplify. Ast/Stmt has the statements. Vm/Exec and
--   Vm/Loops run them, with fuel for the statements and the turns of loops; the analysis of times and
--   difficulties is a parameter of the run. Vm/Steps, Vm/Runs and Vm/Repeats follow a relation on
--   machines through every operation, Vm/LogGrows through a whole run;
--   Vm/Limit is about `max_iterations`: Vm/Limit/Simple for
--   single statements, Vm/Limit/Loops for loops, Vm/Limit/Runs for a run, whose fuel need only pass the
--   limit. The `u32`
--   of the iterations is taken not to wrap around.
-- - Io: src/io.rs. Bytes are numbers below 256; the encoding of strings is a parameter, a pair of
--   functions.
-- - Abi: src/llir/abi.rs, the encodings of arguments and the validation of signatures.
-- - Lower: src/llir/lower.rs, and the types of src/llir/mod.rs. Lower/Encode is `encode_args`,
--   Lower/DiffSwitches `elaborate_diff_switches`, Lower/Labels the label passes and the second encoding.
--   A record, `Language`, has what the hooks of a language, the mapfiles and the encodings supply.
-- - Raise: `decode_args` of src/llir/raise/early.rs, the way back. Raise/OffsetLabels has the labels of
--   the offsets that jumps go to.
-- - TypeCheck: src/passes/type_check.rs. TypeCheck/Stmts has the statements. An error that is reported
--   while the check goes on is an error of the whole at the end.
-- - Game: src/game.rs.
-- - Image: src/image/color.rs. The luminosity of gray pixels is `f32` arithmetic; its numbers are written
--   as multiples of 2 ^ -33, rounded to 24 bits.
-- - Times: src/passes/semantics/time_and_difficulty.rs. Times has the pass with its stacks, Times/Scopes
--   what it promises, without stacks, and Times/Assigned joins them. Its output is what the machine of
--   Vm/Exec is given for its statements.
-- - Resolve: src/resolve/mod.rs. Resolve has the ribs, Resolve/Names the visitor. Resolve/Ids lists what
--   the names of a tree need, Resolve/Sound says what is true of the definitions in the ribs,
--   Resolve/Fresh what a step needs and leaves, and Resolve/Types, Resolve/Exprs, Resolve/Blocks,
--   Resolve/Visits and Resolve/File follow the visitor through a file. An identifier is a number, and
--   what a name carries besides its id is a record of functions, `Context`.
--
-- A panic, an error that is reported and exhausted fuel are different results, in Base/Run.
--
-- Not modelled: spans and the texts of diagnostics, the parser and the formatter, the definitions
-- that mapfiles make, the lowering of expressions and the assignment of registers, the later passes of
-- raising, the file formats and the command line. Warnings are left out everywhere.
pub mod Base
pub mod BitSet
pub mod DiffSwitch
pub mod DiffFlags
pub mod Int32
pub mod Ast
pub mod Value
pub mod ConstEval
pub mod ConstSimplify
pub mod Consts
pub mod Vm
pub mod Io
pub mod Abi
pub mod Lower
pub mod Raise
pub mod TypeCheck
pub mod Game
pub mod Image
pub mod Resolve
pub mod Times
