-- ===== src/Lib.antt =====
-- gbrc compiles a Game Boy ROM to LLVM IR ahead of time. This library is about its Go
-- code: the bytes of the ROM, the instruction decoder with its cache, the analyzer that divides the
-- ROM into the blocks which code is generated for, the code generator with the functions of opcodes,
-- the blocks and the dispatcher, and the command line.
--
-- The parts, and how they interact. The command line parses the file into a ROM
-- (internal/rom/rom.go) and gives a decoder (internal/decoder/decoder.go) and the extra seeds of a
-- profile to AnalyzeBlocks (internal/analyzer/analyzer.go, internal/analyzer/helpers.go). That asks
-- the decoder for instructions, each decoded once and kept in the decoder's cache, and returns
-- the sorted blocks to the code generator (internal/codegen), which emits a block for each of them
-- that calls the function of each instruction, and a dispatcher from one block to the next.
--
-- Common: shared names, the type of outcomes, and lemmas on lists, options and tables.
--   Common/Faults   `Run A`: a value, a panic, or a loop that has used up its rounds
--   Common/Lists    lists with the native numbers: `length`, `get_elem?`, `set`, `All`
--   Common/Bits     bounds of the operations on binary digits
--   Common/Tables   a fact about all bytes from one computed list of 256 answers
-- Rom: internal/rom/rom.go and internal/utils/utils.go.
--   Rom             `Rom`, `parse` (Parse), `read` (Read) and `merge_bytes` (MergeBytes)
--   Rom/Image       an image: any number of bytes, each below 256
--   Rom/Merge       the shift and the or of MergeBytes as arithmetic
-- Decoder: internal/decoder/decoder.go.
--   Decoder/Types     the constants InstructionType and the struct Instruction
--   Decoder/Text      the tables of register and condition names and the String methods
--   Decoder/Encoding  the fields that an opcode's bits encode
--   Decoder/Switch    decodeOpcode: the switch, one case a clause, in groups under Decoder/Switch/
--   Decoder/Cb        decodeCbPrefixedOpcode
--   Decoder/Cache     Decoder, New, DecodeAt; `decode_fresh` is DecodeAt on an empty cache
--   Decoder/Encode    an assembler, from an instruction's kind and operands and not from its length
--   Decoder/Facts, Decoder/Fetch, Decoder/Cache/Laws: the proofs
-- Analyzer: internal/analyzer/analyzer.go and internal/analyzer/helpers.go.
--   Analyzer/Types    Block, ROM_END, and the variables of AnalyzeBlocks as a record `State`
--   Analyzer/Flow     IsBlockTerminator, findSuccessors, calculateRelativeJumpAddress
--   Analyzer/Arrays   claimBytes, spansKnownStart, isInstructionBoundary, truncate, enqueue
--   Analyzer/Collect  collectBlock: `place` and `round` are the body of its loop
--   Analyzer/Analyze  AnalyzeBlocks: `visit` is the body of its main loop
--   Analyzer/Sorted/Unique the insertion sort that stands for slices.SortFunc
--   Analyzer/Chain, Analyzer/Ownership, Analyzer/Schedule, Analyzer/Invariant, Analyzer/Sorted,
--   Analyzer/Arrays/Laws, Analyzer/Flow/Bounds, Analyzer/Collect/..., Analyzer/Correct,
--   Analyzer/Reachable: the proofs
-- Codegen: internal/codegen/helpers.go, internal/codegen/arithmetic.go, internal/codegen/opcodes.go
--   and internal/codegen/codegen.go.
--   Codegen/Ir          the instructions that are emitted, one constructor for each builder call
--   Codegen/Build       the builder: it appends to a block, and `none` is a returned error
--   Codegen/Machine     the globals, the memory behind `Runtime`, and what the instructions do
--   Codegen/Helpers     registers, flags, cycles, conditions and the stack
--   Codegen/Arithmetic  perform8BitArithmetic, performBitwise and performBitOp, in child modules
--   Codegen/Opcodes     the function of each opcode, in child modules, and the switch over them
--   Codegen/Alu, Codegen/WordAlu, Codegen/Loads, Codegen/Rotation, Codegen/BitOps, Codegen/Stack,
--   Codegen/Decimal: the results for bytes, for 16 bits, for loads, for rotations, for single digits,
--   for pairs and calls on the stack and for DAA, written from the processor's manual, and the proofs
--   Codegen/Exits       the block terminators and the cases of joinBlocks for them
--   Codegen/Leave       how a block is left, and the proof that it leads to a successor
--   Codegen/Exits/Runs  every decoded terminator runs, and its cycles
--   Codegen/Total       the call of an instruction's function, and the proof that every one runs
--   Codegen/Assembly    New, emitBlock, emitCalls, emitInstruction, joinBlocks, emitBlockStarts and the
--                       chain of setupReturnDispatcher: the program as blocks of calls
--   Codegen/Execution   what the program does: a block, a round of the dispatcher, `rom_main`
--   Codegen/Cpu         a processor that decodes at `pc` and performs an instruction at a time
--   Codegen/Interpret   that processor with the dispatcher's budget, interrupts and emulator
--   Codegen/Catalogue   the function cache: what a mnemonic and a function's name determine
--   Codegen/Globals     emitGlobals and emitRomInit
--   Codegen/Starts      is_block_start of runtime/src/emulator.c on the emitted array of starts
--   Codegen/Typing      a check of LLVM's typing on emitted code; in child modules what it says of
--                       running code, and the check of all that New emits
--   Codegen/Emission, Codegen/Compiled, Codegen/Blockwise, Codegen/Correct, Codegen/Pipeline,
--   Codegen/Progress, Codegen/Returns: the proofs about the whole program
-- Cmd: cmd/cmd.go.
--   Cmd/Seeds           readSeeds, with its laws and the runtime's profile in child modules
--   Cmd/Toolchain       selectToolchain and the arguments of the compiler and the linker
--   Cmd/Shell           the operating system as a parameter, `must`, and deferred removals
--   Cmd/Command         parseFlags, extractRuntime, collectSources, compile, compileRuntime and Run
--   Cmd/Cleanup         the temporary directories of Run, with child modules; Cmd/Cleanup/Failure is
--                       about a run on which `opt` fails
-- Each part has a module Tests with runs on concrete inputs, and Codegen/Examples those of the program.
--
-- Conventions. An integer of w bits is a natural number, and each operation that can wrap is
-- written with `% 2 ^ w`. A pointer to a block is the block's index in the slice `blocks`: a block
-- that is mutated through `ownedBy` is replaced at its index, so the alias is kept. The arrays
-- `ownedBy` and `blockStart` are functions from indices, with every access outside the array
-- written out as a panic or shown not to occur where the code guards it. A panic of the program
-- (an index out of range, a String method on an unknown value) is `panic`, a value of `Run`.
--
-- Bounds. The loop of collectBlock runs on at most ROM_END rounds, which are enough because each
-- round passes an instruction of at least one byte. The main loop of AnalyzeBlocks runs on at most
-- ROM_END rounds too, which are enough because an address is put into the queue once, when it is
-- marked. That they are enough is part of the theorems: no result is `out_of_fuel`.
--
-- The emitted code. Its meaning is LLVM's, with a fault for ill-typed code and for a shift by the
-- width or more. The functions read_ram and write_ram of the runtime are parameters with the memory
-- that they keep; cg_read_memory is modelled, and reads the array `ram` below 0xE000. What they do depends
-- on that memory and the address alone: the repository's runtime also reads `cycles` in its timer, ppu
-- and apu, and is an instance of `Runtime` only as far as an access does not. A function is declared
-- with the type of its parameter or without one, and a call passes the argument that it has.
--
-- The program. The code of a block is a list of stretches, a call of a function or instructions that
-- use no value from before, and a terminator, whose own code is kept with it; each of its ways out
-- leads to the dispatcher. A pointer to a block of LLVM is its index in `main`. The dispatcher is
-- written as what its blocks do, in their order: the budget, the interrupt, the chain of comparisons
-- and the emulator. The runtime's interrupt_service and emulator_run are the parameter `Services`
-- and may change the whole machine, and the budget is one number for a call of `rom_main`. A call of
-- `rom_main` runs on a bound of rounds of the dispatcher; one round more than the budget has cycles
-- is enough, since each round takes a cycle. The loop of rom_init has a round for each byte.
--
-- The command line. Every call of the operating system is a field of the parameter `System`, on a
-- state that it may change, and so are the functions of path/filepath on names and the printing of
-- a module by the LLVM library. The record `Shell` also lists the temporary directories: a
-- removal that fails leaves its directory there. Deferred removals run where a function returns or
-- panics, and not behind log.Fatal. Flags are given as package flag leaves them.
--
-- Not modelled: what is logged; package flag; main.go and embed.go, which only call Run; the C
-- runtime that the generated code is linked against, but for the search in the array of starts and
-- the two lines that write the profile and set the next budget; the frontends and the presentation.
pub mod Common
pub mod Rom
pub mod Decoder
pub mod Analyzer
pub mod Codegen
pub mod Cmd
