-- ===== src/Lib.antt =====
-- The 42sh shell: its symbol table, streams, tokens, lexer, parser, containers, the expansion of words,
-- the executor, the builtins, and the program that runs them.
--
-- A command line is read by a character stream (src/io), split into tokens by the lexer (src/lexer.c)
-- with an automaton made from the table of tokens (src/lexer_dfa.c, src/include/token.def), parsed
-- into trees (src/include/rule_exec.h) and executed; the words of a command are expanded
-- (src/symexp.c) before it runs; variables, functions and aliases stand in one
-- hash table (src/symtab_*.c), which expansion reads and the builtins alias, unalias, export, unset and
-- cd change. src/parser.c runs one round of this for each line, and src/42sh.c all of them.
--
-- Ast: the tokens of src/include/token.def, the rules of src/include/rule.def and the trees of
--   src/include/rule_exec.h.
-- Symtab: `struct symtab`. A chain is a list of nodes, newest first, and a node has the address
--   that a pointer to it has. `symtab_add` returns that address and `set_exported` writes through
--   it. Print is what `symtab_print` prints. The other children, Nodes, Rehash, Valid, Write,
--   Entry, Fresh, Add, Del, Exported and Clone, are named for what they are about; the predicate
--   IsValid of Symtab/Valid is the invariant of the table: each node stands in the bucket of its
--   hash, which is the hash of its key, no two nodes share key and kind, and no two share an
--   address.
-- Builtins: src/bi_alias.c, src/bi_export.c, src/bi_unalias.c and src/bi_unset.c; Export, Unalias
--   and Unset are about three of them, Options of Unset about what its options mean; Echo and Cd
--   are src/bi_echo.c and src/bi_cd.c. The functions that work in place (`__interpret_escapes`,
--   `__join_dirs`) run on a memory of bytes, with indices for pointers and a step of the loop as a
--   function; the length of the memory bounds their rounds. Path of Cd has the paths as lists of
--   components, Join and Resolve the rounds of the loop, Components and Dirs the whole of it, Laws
--   the builtin. The calls of libc and the kernel are the operations of a record `Os`, with the
--   law of `setenv` in `EnvLaws`; an overflow, a failed assertion and the printing of NULL are
--   `none`.
-- Context: src/include/ctx.h, src/bi_continue.c and src/bi_exit.c; Frames has a context as the
--   loops and allocations that were entered, and what break and continue do in it.
-- Exec: the control flow of the executor, the functions rl_exec_* of src/rl_and_or.c,
--   src/rl_list.c, src/rl_compound_list.c, src/rl_do_group.c, src/rl_else_clause.c,
--   src/rl_if_clause.c, src/rl_while.c and src/rl_until.c, over a parameter for rl_exec_pipeline.
--   A long jump is a result; a loop runs on fuel. AndOr is about lists of pipelines, Conditions
--   about if, Loops about while and until, with the relation `Ends` that says how a loop ends and
--   needs no fuel. Words is src/rl_for.c, src/rl_case.c, src/rl_case_clause.c and the execution in
--   src/rl_fundec.c, with the table, the last status and the host of Symexp as the state; Cases of
--   it has a case command as a list of items, Rounds the rounds of a for and the break that ends
--   them. Scoped and Words/Scoped say to which buffers a jump of these goes.
-- Command: the rest of the executor. Redirect is src/rl_redirection.c and the descriptors that
--   src/rl_shell_cmd.c saves, Compound src/rl_shell_cmd.c and src/rl_subshell.c, Builtin
--   src/builtins.c and src/include/builtins.def, Simple src/rl_simple_cmd.c, and Pipeline
--   src/rl_pipeline.c and src/rl_cmd.c with the recursion, on fuel for the depth of the calls. A
--   record `Kernel` has the calls of the operating system on a world of any type, and `FdLaws` of
--   Redirect/Calls what dup, dup2, close and fcntl do to open descriptors; Loops, Frame and Back
--   of Redirect follow them around a command. A failed assertion is the result `broken`. `Scoped`
--   is the predicate that a jump goes to a buffer that is alive; Scoped and its children are about
--   it.
-- Driver: src/parser.c, with the outputs for debugging of src/parser.c and src/ast_dot.c in Print,
--   src/bi_source.c in Source and src/42sh.c in Main. A call of `parser` ends with an error code,
--   with a jump to another buffer, on a failed assertion or without fuel. `executor` ties the
--   executor to the builtin `.`, which runs the parser again. The options that getopt_long gives,
--   access, fopen and isatty are parameters. Lines is about one call of `parser`, and Stray
--   follows the jumps through all of this.
-- Symexp: src/symexp.c, src/include/symexp.h and src/utils/strings.h, with the part of `struct
--   ctx` of src/include/ctx.h that they read. `exp_step` is a round of the loop of `symexp_word`,
--   by the kind of its character, and an overflow of a buffer is its `none`. A round takes a
--   character, or it puts one back and leaves the collection of a name: twice the length of the
--   word, and one more, is enough fuel. A record `Host` has the calls of libc and the run of a
--   subshell, of which the model takes how far its stream was read, two characters at least.
--   Children of Word: Laws and Naming have runs of rounds, Pieces the words that are put together
--   from quoted and bare text and braced names, Expand what they give, Enough the fuel, Stale the
--   key that an argument's number leaves.
-- Token, Dfa: src/token.c and src/lexer_dfa.c. The array of the automaton is the list of the
--   writes to it, newest first; a cell that was not written is DFA_ERR_STATE.
-- Io: src/io/cstream.c and src/io/cstream_string.c. The results that the `read` of a stream will
--   give are a list, with EOF behind its end. File is src/io/cstream_file.c, over the answers of
--   `fgetc`. Terminal is src/io/cstream_readline.c and src/io/interruptible_readline.c, over the
--   events of select, GNU readline and SIGINT; a read whose events end waits.
-- Lexer: src/lexer.c and the state of src/include/rule.h. Mode has the quoting modes; Stream, Loop
--   and Total are about the reads, the loop and the whole of the lexer. `lex_step` is one run of
--   the loop of `__lexaux`, and `lexaux` the loop with its nested calls, which share the fuel:
--   each run takes a character of the stream, so fuel above the number of characters ahead is
--   enough.
-- Parser: src/rl_accept.c and src/rl_expect.c, the token interface of the parser rules. The fuel
--   bounds the loop of `rl_accept`, which runs again only behind a keyboard interrupt, and the
--   lexer. Steps has the control flow that the rules share, Commands the rules of simple commands,
--   Compound those of compound commands over a parameter for `rl_compound_list`, and Rules the
--   other rules and the recursion. A rule whose name is also a node type has an underscore at its
--   end: `rl_list_` is the function and `rl_list` the type. The siblings that a loop links are a
--   list until it ends. No bound is shown for the fuel of the rules.
-- Utils: Vec is src/utils/vec.c, src/utils/vec.h and src/utils/vec_pushstr.c, Copy the
--   `__my_strcpy` of src/bi_echo.c and src/bi_cd.c, StrList src/list.c.
-- Base: names of the libraries, Boolean tests and lists over the native numbers, strings of bytes.
--
-- Numbers: the hash is computed modulo 2^32, sizes and the doubled capacities modulo 2^64; the
--   byte count of an allocation is not computed. A character of a key is the value of a signed
--   char.
-- Not modelled: release of memory, and the messages of the parser rules and of unset. The standard
--   input of a stream and that of the commands it runs are apart: a command does not take
--   characters of the shell's input. A tree that is run again, in a loop or a function, starts
--   with the statuses that the parser gave its nodes. What a builtin prints is written when it
--   returns. The vectors of the lexer and of expansion are texts; Utils.Vec says how a vector
--   holds one.
pub mod Base
pub mod Ast
pub mod Utils
pub mod Io
pub mod Symexp
pub mod Symtab
pub mod Builtins
pub mod Command
pub mod Context
pub mod Exec
pub mod Token
pub mod Dfa
pub mod Lexer
pub mod Parser
pub mod Driver
