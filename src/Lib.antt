-- ===== src/Lib.antt =====
-- The kernel of Lean 0.1: names, universe levels, universe constraints, and the operations on
-- expressions that carry its logic: replacement below binders, free variables, lifting, lowering
-- and instantiation; the type checker; the environment with its declarations; and the containers
-- that its parts keep their state in.
--
-- The parts, each over the ones before it:
--   Base                     tests, options, lists, words, orders and integers that the parts share
--   Util/Hash                src/util/hash.h, src/util/hash.cpp: mix, hash, hash_str
--   Util/Arith               src/util/safe_arith.cpp: additions that throw on overflow
--   Util/Name                src/util/name.h, src/util/name.cpp: chains of limbs, operator==, cmp,
--                            quick_cmp, is_prefix_of, operator+
--   Util/SplayTree           src/util/splay_tree.h: insert, find, erase, the rotations; Elements has
--                            what each does to the elements in order, Refine and Runs the
--                            refinement of sorted lists
--   Util/SplayMap            src/util/splay_map.h
--   Util/ScopedMap           src/util/scoped_map.h: push, pop, insert, erase; Undo has what pop takes
--                            back, Runs the refinement of a stack of tables
--   Kernel/Level             src/kernel/level.cpp: operator==, operator<, max, operator+
--   Kernel/UniverseConstraints   src/kernel/universe_constraints.cpp, every operation: Edges has an
--                            invariant of the edge maps, Solutions and Added the solutions of a set,
--                            Overflow the exceptions, Unclosed and Sources the distances left alone
--   Kernel/Expr              src/kernel/expr.h, mk_app of src/kernel/expr.cpp
--   Kernel/ExprEq            src/kernel/expr_eq.h, and the hash fields of src/kernel/expr.cpp
--   Kernel/Abstract          src/kernel/abstract.h, src/kernel/abstract.cpp
--   Kernel/LocalContext      add_lift and add_inst on local contexts, src/kernel/metavar.cpp
--   Kernel/Metavar           apply_local_context of src/kernel/metavar.cpp
--   Kernel/Replace           the recursion of src/kernel/replace_fn.h
--   Kernel/ReplaceFn         its stacks of frames and results and its cache: Steps has the passes over
--                            one frame, Runs and Result what the stacks compute
--   Kernel/ForEach           src/kernel/for_each_fn.h, src/kernel/find_fn.h, src/kernel/occurs.cpp:
--                            Parts has the order of the visit, Cell and Finds the search of a cell
--   Kernel/FreeVars          src/kernel/free_vars.cpp
--   Kernel/Context           src/kernel/context.h, src/kernel/context.cpp: lookup, truncate, remove
--   Kernel/Instantiate       src/kernel/instantiate.cpp
--   Kernel/Term              the specification: terms with numbered variables, with shifting,
--                            substitution and their laws; Abstract replaces constants by variables
--   Kernel/Meaning           the term that an expression stands for, and what each operation does to
--                            it; a file for each operation
--   Kernel/Universes         src/kernel/environment.cpp: is_ge, add_constraints, check_consistency on
--                            levels; Implied, Bounds and Constrained have what they mean for
--                            assignments
--   Kernel/Conversion        src/kernel/type_checker.cpp: check_type, check_pi, check_sigma and
--                            is_convertible; Relation has the conversion that they test,
--                            Separate that it keeps universes apart
--   Kernel/TypeChecker       src/kernel/type_checker.cpp: infer_type_core; Entry has check, infer_type,
--                            check_type and is_proposition, Typing the typing rules, Sound that
--                            they hold, Terminates the depth of the recursion
--   Kernel/Object            src/kernel/object.h, src/kernel/object.cpp
--   Kernel/Environment       src/kernel/environment.cpp: cells, names and objects; Declare has
--                            add_definition and the other declarations, Universe add_uvar_cnstr,
--                            Commands sequences of calls, Changes what a call may do, Accepted and
--                            Run that every call does only that, AllObjects and Stored what is
--                            known of each object, Names and Permanent how names keep their objects,
--                            Weights the weights of definitions, WellFormed the
--                            invariant of the universes, Avoids and Above the variable of TypeU
--   Tests                    runs on small inputs
--
-- How the source is read. A name, a level and an expression are values: reference counts, pointer
-- tests and caches of results leave no trace, and a cached hash is the function that fills it. An
-- exception is the answer `none`. An `unsigned` is a number with its sum and difference modulo 2^32
-- written out (add32, sub32); an `int` of universe_constraints is an integer whose sums go through
-- safe_add and safe_sub. A metavariable environment is read only for the size of a metavariable's
-- context, so it is `none` or a function from names to sizes. The hash of a semantic attachment,
-- which its own class computes, is a parameter. The visitors are structural recursion. replace_fn and for_each take fuel
-- for the passes through their loops: twice the number of cells is enough for replace_fn, and one
-- pass for each cell for for_each. Their tests for shared cells and for equal addresses are
-- parameters, and so are the comparison of a splay tree and KeyEqual of a scoped map, whose hash
-- table (of the C++ library) is a function from keys to values.
--
-- Kernel/Meaning gives each expression a term, once a term is chosen for each metavariable: the
-- local context of a metavariable is applied from its last entry to its first, as the comment in
-- src/kernel/expr.h describes. The theorems on lifting and instantiation hold for each choice; that on
-- abstraction is for constants, and for choices that do not mention them.
-- Their bound Room says that the indices of the expression, with the binders above them and the
-- lifts that are applied, are below 2^32, and that no lift entry lifts by zero (no operation makes
-- such an entry). Knows says that the sizes of the metavariable environment bound the free variables
-- of what is chosen; free_var_range is trusted by the early exits of add_lift and add_inst for that.
--
-- The type checker is read as the kernel calls it, without a metavariable environment and without a
-- buffer for unification constraints, so that a metavariable is an exception. Its recursion takes a
-- depth: the cells of the expression with those of the bodies in the context are enough, since a
-- call is for a part of the expression or for the body of an earlier entry of the context. It reads
-- an environment through a record, RoEnvironment, which read_only fills. The normalizer is a
-- parameter of the declarations, of which nothing is assumed; so are the virtual functions of semantic
-- attachments. An environment is its cell over those of its ancestors. The vector of a cell holds its
-- objects, and the dictionary their places in it, since both see a flag that set_opaque sets. The
-- number of children only grows here: no environment is destroyed. What an environment holds after an
-- exception is not described, and the flag m_type_check is true, as it is but while a file is imported.
--
-- Not modelled: the caches of the other visitors, which hold results of the functions modelled;
-- printing, serialisation and the Lua bindings; the metavariable environment, the normalizer,
-- import and export of files, the elaborator and the frontend.
pub mod Base
pub mod Util
pub mod Kernel
pub mod Tests
