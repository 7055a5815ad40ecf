-- ===== src/Lib.antt =====
-- A model of parts of the library crate of cwe_checker (src/cwe_checker_lib), which finds common
-- bug classes in binaries by data flow analyses over abstract domains.
--
-- The parts and how they meet. An analysis is a fixpoint computation over a graph
-- (src/cwe_checker_lib/src/analysis/fixpoint.rs): each node has a value of an abstract domain, each
-- edge a transfer function, and a worklist visits nodes until nothing changes. The domains are in
-- src/cwe_checker_lib/src/abstract_domain: maps into a domain with three ways to merge them
-- (domain_map.rs), memory regions that hold values at offsets (mem_region.rs), the characters of a
-- string (character_inclusion.rs), strided intervals (interval/simple_interval.rs) with hints for
-- widening (interval.rs), pointers and numbers (data.rs), and the access flags of a variable
-- (analysis/function_signature/access_pattern.rs).
--
-- Files. BTreeMap.antt and BTreeSet.antt are the standard library's ordered maps and sets, with
-- their laws in the modules below them; a map is the ascending list of its entries. `range` of the
-- standard library looks at its bounds, and panics if the end lies below the start, only if the map
-- has a root node; whether an empty map has one depends on its history, and the methods of
-- `MemRegion` that call it on a region take it as the argument `empty_root`. Prelude.antt holds
-- what all files share: tests and lists on native numbers, key types (Key), the result of a run
-- with its panics (Outcome), 64-bit integers (Word64). Prelude/Bits.antt and Prelude/Powers.antt
-- have the laws of bitwise operations and of sums and shifts modulo powers of 2. Apint.antt is what
-- the memory regions use of the crate apint, Apint/Arithmetic.antt what the operations on
-- bitvectors use, and Apint/Words.antt an instance of both. Analysis/Fixpoint.antt has a function
-- for each method of `Computation`, and its laws below it: Order (what is asked of the graph and of
-- the values), Extends and Visits (one step), Budget and Loop (the loop of
-- `compute_with_max_steps`), Fixed (a stabilized result), Enumeration and Init (start values),
-- Least (the least solution) and Ends (the loop of `compute`). Analysis/AccessPattern.antt has the
-- methods of `AccessPattern`. AbstractDomain.antt has the traits, AbstractDomain/DomainMap.antt the
-- merge strategies, AbstractDomain/MemRegion.antt the methods of `MemRegion`, and
-- AbstractDomain/MemRegion/Merging.antt their merge; AbstractDomain/CharacterInclusion.antt the
-- domain of the characters of a string, and AbstractDomain/Data.antt the domain of pointers and
-- numbers. AbstractDomain/Interval.antt has the strided intervals of interval/simple_interval.rs;
-- of the modules below it, Represented says which bitvectors an interval stands for, Sound is about
-- sums and differences, MergedStrides and Merged about merges, Membership about `contains`, and
-- Excess, Adjusted and Lowered about moving an end to a value at the stride. Interval/Widening.antt
-- has IntervalDomain with its hints and its merge (interval.rs), Interval/Conditional.antt its
-- restriction by conditions; Hints is about the hints, Closed, WidenSteps and Widened about the
-- widening merge, Residue and Rounded about rounding to the stride, and Restricted, RestrictedEnd,
-- RestrictedStart, Signs, Keeping, RestrictedUnsigned and RestrictedUnequal about the conditions; a
-- closed domain has hints outside of its interval and one of its values as its end. Below
-- IntermediateRepresentation, Variable.antt, Expression.antt and Def.antt have the types of the
-- intermediate representation (src/cwe_checker_lib/src/intermediate_representation), and
-- DeadVariableElim.antt the pass that removes dead assignments, whose theorems are about the values
-- that Expression/Semantics.antt and DeadVariableElim/Execution.antt give to expressions and
-- instructions. Bitvector.antt has the operations that intermediate_representation/bitvector.rs
-- adds to those of apint, and Expression/Simplify.antt the functions of
-- expression/trivial_operation_substitution.rs. Expression/Pcode.antt gives the operations on
-- integers and Booleans the value that P-Code's reference gives them. Below Bitvector, Yields and
-- Implements relate the code's operations to these values, and Overflow the checked sums and
-- differences to signed integers. Below Expression/Simplify, Same is the derived equality, Typed
-- says which operands an operation takes, WordLaws, Comparisons and Pieces have the equations
-- between P-Code's values, Keeps, Shapes, EqualOperands, Constants, Joins, Differences, Borrows,
-- Regroups, Folding and Casts treat one rewriting step each, and Correct the whole. Methods that
-- take `&mut self` return the new state. Functions have the names of the source; a `strategy` is
-- its `merge_map_with`.
--
-- Numbers. A `u64` is its number. An `i64` is held as its value plus 2 ^ 63, so that its order is
-- that of the numbers; sums wrap around as in a release build; an `i128` is its value plus 2 ^ 127.
-- Byte sizes are numbers.
--
-- Foreign code. petgraph's graph is the record `DiGraph`, with its documented behaviour in
-- `IsDiGraph`; the order that its algorithm `kosaraju_scc` gives is a field, of which `Enumerates`
-- says that it lists each node once. The operations of the crate apint are the record `Arithmetic`,
-- and their documented behaviour `IsArithmetic`, which Apint/Words.antt shows to hold of lists of
-- bits; its bounds of a width, its conversions to signed integers, and the crate gcd, are in
-- Apint/Signed.antt, with an instance in Apint/Words/Limits.antt. Hash maps of the crate fnv are
-- maps of which only lookups matter. `ApInt` has the two operations on bitvectors that the memory
-- regions use. What an operation of an expression computes is the record `Meaning`, and what reads
-- and writes of memory do the record `Machine`: nothing is asked of them but that they depend only
-- on their operands. In Pcode.antt the multiplications, divisions, signed right shift, counts of
-- bits and float operations that the rewriting does not look into are the record `Others`.
--
-- Fuel. The loop of `compute_with_max_steps` has `rounds` rounds of fuel: a round either uses one
-- of the `max_steps` visits of a node, after which the worklist holds at most all nodes, or takes a
-- node out of the worklist for good. `compute` has no bound of its own and takes the fuel as an
-- argument.
--
-- Not modelled: the front end that reads Ghidra's P-Code, the checkers, the other analyses, and the
-- output. Of the strided intervals, the operations that the code computes in 128-bit integers
-- (intersection, zero extension, pieces) are left out, and of IntervalDomain what uses them: its
-- intersection, casts, subpieces and operations.
pub mod Prelude
pub mod BTreeMap
pub mod BTreeSet
pub mod Apint
pub mod IntermediateRepresentation
pub mod AbstractDomain
pub mod Analysis
