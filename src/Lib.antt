-- ===== src/Lib.antt =====
-- Verification of Qy, a Lisp-like language with algebraic effects, implemented in Python under qy/.
--
-- The program. A source text is read (qy/frontend), macros are expanded (qy/macro), and the result is
-- lowered from HIR to MIR to LIR and to bytecode (qy/ir, qy/passes), which a register machine runs
-- (qy/vm). Names are looked up in symbol spaces (qy/core/symbol_space.py), of which the number space
-- holds the arithmetic (qy/session/number_ops.py). The CST parser (qy/frontend/cst_parser.py) reads the
-- same language with its whitespace and comments, for the tools. The parts that stand here meet as
-- follows: the MIR passes give the functions that are lowered to LIR and compacted; both read the same
-- operands, those of Mir/Node. The other parts stand alone.
--
-- The files.
--   Prelude           numbers, lists, members of lists, integers, shared by all parts.
--   Mir/Node          qy/ir/mir/node.py. Instructions, terminators, blocks, functions.
--   Mir/Operands      qy/ir/mir/__init__.py and the uses and definitions of qy/analysis/liveness.py.
--   Mir/Semantics     what a MIR function does on a machine. The opcodes that load a register are
--                     those of qy/vm/instance/machine.py (_execute_instruction); the rest of the
--                     machine is a record of operations that the theorems take as a parameter,
--                     whose laws say which registers they read.
--   Mir/Dce           qy/passes/optimize/dce.py: _collect_used_registers, _is_dead, _eliminate_dead.
--   Mir/Verify        qy/ir/mir/__init__.py, verify_mir, and qy/ir/mir/predicates.py. Schema holds the
--                     checks of operands, Reach and DefUse the two analyses, Pairing the checks of
--                     handlers and scopes, Program their composition. Tables compares the
--                     registers of the check with the register tables.
--   Mir/Cse           qy/passes/optimize/cse.py.
--   Lir/Node          qy/ir/lir/node.py. The instructions of the LIR.
--   Lir/Compact       qy/passes/lir/compact.py. `map_register_operands` is the match over the opcodes;
--                     since the source passes it a function with state, it gives the calls that it
--                     makes of that function, and `run` answers them as the closure does.
--   Lir/Linearize     qy/passes/lir/linearize.py. Lir/Linearize/Code describes its result in one pass.
--   Lir/Peephole      qy/passes/lir/peephole.py. Lir/Peephole/Tidy holds the walk that it comes to.
--   Space             qy/core/symbol_space.py: SymbolSpace and its methods. A dict is an association
--                     list (Space/SymbolDict), the chain of parents a list of layers.
--   Cst/Tree          qy/frontend/cst.py. The tree and collect_text.
--   Cst/Lexer         qy/frontend/cst_parser.py: the walks over characters, and the cursor.
--   Cst/Parser        qy/frontend/cst_parser.py: the methods of the recursive descent. Cst/Parser/Grammar
--                     is the grammar that the parser is compared with.
--   Number            qy/session/number_ops.py and the number classes of qy/sem/core.py. Number/Integer
--                     and Number/Float hold the kernels, Number/Dispatch the choice of a kernel.
--   Bytecode          qy/backend/vm/bytecode.py. Program holds the data, Binary/Write and Binary/Read the
--                     two directions of the binary format.
--   Project           qy/project/resolve.py. Version holds the order of versions, Resolve the selection.
--   Examples          runs of the model, and each theorem at a concrete input.
--
-- Conventions. A Python exception is `none`, a constructor of an outcome, or an error with the state
-- that it leaves. A mutable object is passed on as a value. Registers, indices, characters and
-- positions are native numbers; Python's integers are ℤ. Spans of the IR are left out.
--
-- Bounds and fuel. The while loop of _eliminate_dead runs on one unit of fuel for each instruction and
-- one more, since each turn but the last removes an instruction. `resolve` runs on one unit for each
-- binding and each layer, since each turn leaves a layer or follows an alias that it has not seen. The
-- walk over the blocks runs on one unit for each edge and one more, since no block is entered twice; the
-- loop over the sets of defined registers on one for each target and register, since each round but the
-- last gives a target its first set or takes a register out of one. Version
-- selection runs on one unit for each module that can be asked for and one more, since each call that
-- is open has visited one. The
-- parser runs on twice the length of the text, and two more: a call and a turn of a loop each spend
-- one unit, and two in a row consume a character.
--
-- Not modelled: the virtual machine but for the opcodes that load a register, the JSON format of
-- bytecode, the other lowering passes, the other optimisations, macro expansion, imports, and the
-- tools; the reader's grammar, which a library runs; the other backends, the command line and the
-- host interoperation, which are
-- glue and printing. Of the number space the comparisons and the parsing of literals are left out, and
-- the arithmetic of floats is a parameter, since it is Python's.
pub mod Prelude
pub mod Mir
pub mod Space
pub mod Cst
pub mod Lir
pub mod Number
pub mod Bytecode
pub mod Project
mod Examples
