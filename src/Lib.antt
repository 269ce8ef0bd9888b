-- ===== src/Lib.antt =====
-- Canonizing sets of lexicographic implications (incremental/algorithm): the constraint encoder and
-- the search.
--
-- The program looks for a set of implications "if the adjacency string of a graph agrees with that
-- of a permuted graph before position k, then it is at most that at position k" that together
-- break all symmetries of graph search problems. It encodes graphs, permutations and
-- lexicographic constraints into clauses (core/ConstraintSolver.cc), and asks a copy of the SAT
-- solver Glucose (core/Solver.cc) for counterexamples.
--
-- Parts (paths are below incremental/algorithm, so core/Main.cc is
-- incremental/algorithm/core/Main.cc):
--   Sat          the interface of Glucose that the encoder calls: literals and lifted Booleans of
--                core/SolverTypes.h, and the solver as its calls leave it, that is its number of
--                variables, the clauses it was given and its model. Sat/Semantics says what
--                clauses mean. The search (`solveLimited`) is a parameter, `Search`, with
--                `IsCorrect` for its documented behaviour.
--   Matrix       mtl/Matrix.h, with the cells that its loops visit as lists; in Core its copy
--                core/Matrix.h, which differs in one loop bound, with its loops as they are written.
--                The bound of the copy is also in Matrix.antt, for the reducer.
--   Constraints  core/ConstraintSolver.cc. `Solver` has the fields of the class. `newBoolVar`,
--                `boolOr`, `atLeastOne`, `setBoolVar`, the constructor and `newModel` are in
--                Constraints.antt, `boolIffReif`, `boolAndReif` and `boolOrReif` in Gates,
--                `atMostOne` and `exactlyOne` in Cardinality, the gates of arrays in Arrays, the
--                `boolIffReif` with a cache in IffCache, the lexicographic constraints in Lex,
--                `newIntVar`, `newPermutation` and `intEqReif` in Ints, `newAdjMatrix`,
--                `isomorphic` and `notLexLeader` in Graphs, `solve` and the methods that read a
--                model in Answers. Interface has the public methods of core/ConstraintSolver.h as
--                a record over any state, which the client PermutationSet takes.
--   Canonizing   core/CanonizingLexImplicationsAlg.cc: `set_up` is the start of a round, from
--                `newModel` to `isomorphic`, `start_round` the constraints of a round,
--                `find_implications` its search loop, `run_rounds` the loop over the lengths,
--                `compute` and `extend` the methods of these names. The reducer is a parameter of it,
--                `IsReducer` says what is expected of it, and Reducer/Reduced and
--                Reducer/Delta fill it. Subgraph is `extend` with a subgraph, PermutationSet
--                core/CanonizingPermutationSetAlg.cc, Main core/Main.cc with its options as a
--                list. Objects has the class of core/CanonizingLexImplicationsAlg.h with its
--                fields, its constructor and its methods with the files that they write;
--                PermutationSet/Object has that of core/CanonizingPermutationSetAlg.h.
--   Text         strings as lists of characters: numbers and lines, as the files hold them.
--   Reducer      core/LexImplicationsReducer.cc: the object with its constructors is in Construct, the
--                clauses in Clauses, their texts and the external program in Texts, `reduce` and
--                `reduceDelta` in Reducer.antt, the public methods of the class in Interface. About
--                them: the matrix of variables in Adjacency and Numbering, the gates and their
--                cache in Gates and Cache, strings in Strings, what the files say in Files, the
--                clauses of a subgraph in Units, what is read back in Output and Kept, and the
--                calls of the methods in Reduced and Delta. The program that the reducer runs is
--                the parameter `Tool`, with `IsSound` for its documented behaviour.
--   Writer       core/LexImplicationsFileWriter.cc. The text of the time is a parameter. Writer/Reader
--                is a description of how such a file is read, Writer/Files the files of `compute`
--                and `extend`.
--   GraphReader  core/GraphReaderWriter.cc. The fuel for a line is above its length.
--   Dimacs       `parse_extended_DIMACS` of core/Dimacs.h, on the text of a stream. What it calls of
--                the copied code is a parameter, `Parser`: utils/ParseUtils.h and `readClause`;
--                `IsParser` says what is documented of it. The fuel is above the length of the text.
--   Order        the lexicographic order and simple graphs: the specification, not code.
--   Prelude      numbers, integers, lists, results, and library names.
--
-- What a constraint means: `Encodes s s' P Q` (Constraints/Encodes.antt) says of a call that turns
-- the solver `s` into `s'` that `s'` is well formed, that each of its models is one of `s` at which
-- `Q` holds, and that each model of `s` at which `P` holds becomes one of `s'` when the new
-- variables get suitable values. `Offers` (Constraints/Offers.antt) says so of calls that make
-- variables which can show any of the values of a given kind. Where `P` and `Q` are one predicate
-- the clauses mean just that predicate. `IsValid` (Constraints/Semantics.antt) is the invariant of
-- the solver object: its counters agree with the SAT solver, every literal, integer variable and
-- cache entry refers to a variable that there is, the constant is true in every model, and so is
-- every entry of the cache.
--
-- Loops over a range are recursion on the number of rounds, so they end. The loops that run while
-- `solve` finds a model (`countSolutions`, and the search loop of a round) are recursion on fuel,
-- with the error `out_of_fuel`. A round excludes the permutation of each model that it finds, so
-- fuel above n ^ n is enough for it, and for the search of PermutationSet. `countSolutions` excludes
-- the values of the k references it projects to, so fuel above 2 ^ k is enough.
--
-- A read out of bounds by `[]` is the error `undefined_access`, the exception of `at` is
-- `out_of_range`, `std::runtime_error` is `runtime_error`, and `exit` is `exited`. `int` and
-- `size_t` are taken not to overflow: the numbers are counts of variables and vertices.
--
-- `runDirect`, `runIncremental` and `main` return no set: what the model returns with the exit code is
-- the local set of the run, which the program writes to a file. The numbers of vertices that `atoi`
-- gives are natural numbers here; a negative one, which the test `n == 0` lets pass, is not modelled.
--
-- Not modelled: Glucose itself (core/Solver.cc, core/SolverSym.cc, mtl but for Matrix.h, simp, utils,
-- and core/Dimacs.h but for its extension), whose calls are parameters; the Java and the Prolog
-- programs.
mod Prelude
pub mod Text
pub mod Sat
pub mod Matrix
pub mod Order
pub mod Constraints
pub mod Canonizing
pub mod Reducer
pub mod Writer
pub mod GraphReader
pub mod Dimacs
