-- ===== src/Lib.antt =====
-- kati reads makefiles, evaluates them the way GNU make does and writes a ninja file, or runs the
-- recipes itself. This library models its texts, the functions of make that work on them, the
-- parser of makefiles, the assignment and the evaluation of variables, the rules by which a
-- target is made, the emulation of find, and the texts of the ninja file.
--
-- Prelude: numbers, lists and texts. A text is the list of its bytes; numbers are natural
-- numbers, and where a size_t, a long or an int can wrap around the definition says so.
--
-- Piece models src/string_piece.h and src/string_piece.cc (find, rfind, the four searches for a
-- byte of a set, substr, operator==, operator<, compare). npos is none, and so is an argument
-- left out. Places past the end read as 0, as the NUL byte behind a std::string does: where the
-- source reads the byte behind a piece of a longer buffer, the model is that of a piece which
-- ends its string. Texts are taken to be shorter than 2 to the 31st, so that places and lengths
-- that the source keeps in an int do not wrap around.
--
-- Strutil models src/strutil.h and src/strutil.cc. Strutil.Words: WordScanner (words), WordWriter
-- (Writer, write), JoinStrings, HasWord. Strutil.Pattern: HasPrefix, HasSuffix, TrimPrefix,
-- TrimSuffix and the class Pattern (pattern_of, match, stem, subst_pattern, subst_ref).
-- Strutil.Trim: TrimLeftSpace, TrimRightSpace, TrimLeadingCurdir, FormatForCommandSubstitution,
-- IsInteger. Strutil.Path: Dirname, Basename, GetExt, StripExt. Strutil.Normalize: NormalizePath,
-- AbsPath, ConcatDir; Strutil.Normalize.Reference: the reading of a path with a stack of
-- components. Strutil.Breaks: NoLineBreak, FindEndOfLine, on fuel. Strutil.Escape: EchoEscape,
-- EscapeShell. Strutil.Paren: FindOutsideParen and its variants.
--
-- Func models the functions of make of src/func.cc on evaluated arguments, which call the parts
-- above: Func.Texts (patsubst, strip, subst, findstring, filter, filter-out, sort), Func.Words
-- (word, wordlist, words, firstword, lastword), Func.Names (join, dir, notdir, suffix, basename,
-- addsuffix, addprefix) and Func.Control (if, and, or, over a state that evaluation changes). A
-- function appends to the text it is given; an error that ends the program is a value.
--
-- Rule models src/rule.h and src/rule.cc: Rule as a record over the type of its commands' values,
-- with ParseInputs (parse_inputs) and ParsePrerequisites (parse_prerequisites); a symbol is its
-- text, and Glob and the evaluation of a text are parameters.
--
-- Var models src/var.h, src/var.cc and Symbol::SetGlobalVar of src/symtab.cc: variables with
-- their origins and flavors, tables (peek, lookup, assign, set_global_var), ScopedVar and the use
-- of deprecated and obsolete variables. A table has its variables by value; what the source
-- changes through a pointer is put back under the name.
--
-- Eval models the assignments of src/eval.cc: EvalRHS (eval_rhs) and EvalAssign (eval_assign)
-- over the part of the evaluator's state that they use. The evaluation of a value in a state is a
-- parameter.
--
-- Expr models src/expr.h and src/expr.cc. Values are a data type (Value) with the table of
-- functions of src/func.cc (func_info_map). Expr.Scan: one round of the loop of ParseExprImpl
-- (scan_round). Expr.Parse: ParseExprImpl (parse_expr_impl, parse_loop), ParseDollar
-- (parse_dollar, parse_name, parse_subst) and ParseFunc (parse_func, parse_arguments), mutually
-- recursive; all pieces that they pass on end where the text ends, and a NUL byte is read there.
-- Expr.Written: texts of plain parts and references, and their values. Expr.Eval: Eval of values
-- and of variables (eval, eval_name, eval_var), with the lookups of src/eval.cc in Expr.Lookup;
-- it runs on a machine that an error may have ended. The functions that need the system or the
-- statements are the parameter `other`, and the names that .VARIABLES gives are the parameter
-- `variable_names`.
--
-- Parser models src/parser.h, src/parser.cc and the statements of src/stmt.h. Parser: the
-- statements (Stmt), the state of the class Parser and its tables of directives;
-- Parser.Statements: ParseRule, ParseAssign, ParseInclude and the other handlers that add one
-- statement; Parser.Conditionals: EnterIf, ParseEndif and ParseDefine; Parser.Line: the other
-- directives and ParseLine (parse_line); Parser.Run: the loop of Parse (parse). The vectors of
-- statements are numbered and out_stmts_ is a number; expressions are parsed by Expr.Parse. In
-- Parser.Blocks a makefile is a block of lines and conditionals, for the theorem on nesting.
--
-- Find models src/find.h and src/find.cc: conditions (FindCond), with fnmatch as a parameter, and
-- a numbered tree of entries; Find.Run: the walk of RunFind over it (run_find); Find.Listing: the
-- entries of a tree that the rules of the emulator for pruning, depth and printing select, by the
-- enumeration of all entries and not by the walk; these rules are those of src/find.cc, which
-- treat -prune otherwise than find does for files and beside an explicit -print; Find.Nodes:
-- FindDir and FindNodes (find_dir, find_nodes); Find.Handle: HandleFind (handle_find);
-- Find.Parse: the lexer and the parser of conditions; Find.Arguments: those of find and
-- findleaves.py; Find.Command: the commands that may be emulated and FindCommand::Parse.
--
-- Ninja models the texts of src/ninja.cc: TranslateCommand (translate_command),
-- GetDescriptionFromCommand and EscapeNinja (escape_ninja), with the reader of ninja as a
-- parameter, and a text of TranslateCommand is taken to hold no NUL byte, at which its loop ends;
-- Ninja.Script: GenShellScript (gen_shell_script); Ninja.Depfile: the search for a dependency
-- file.
--
-- Dep models src/dep.cc and src/dep.h. Dep.Populate: the tables of DepBuilder (the first loop of
-- PopulateRules as populate_rules, HandleSpecialTargets). Dep.Plan: the nodes and the state of
-- the plan, FillDepNode (fill_dep_node, in Dep.Plan.Node), PickRule (pick_rule, in
-- Dep.Plan.Choose) with CanPickImplicitRule, and BuildPlan (build_plan, in Dep.Plan.Build): nodes
-- are numbered, a pointer to a node is its number, and what evaluation and the file system do is
-- in the record Outside. Dep.Trie: the class RuleTrie, by which the pattern rules for a target
-- are found. Dep.Merge: IsSpecialTarget, IsSuffixRule, ReplaceSuffix, ApplyOutputPattern and the
-- struct RuleMerger, which collects the rules of one target; a pointer to a merger is the name of
-- its target.
--
-- Fuel. The scanner's loop passes a byte in each round and has one round more than the text has
-- bytes; the loops of subst and of EscapeShell have the same fuel, which their theorems show to
-- be enough. Each call of a parser of Expr costs a unit; for texts with no colon three units for
-- each byte and two more are enough, and with a substitution ParseFunc may be left behind the end
-- of the text. The loop of Parse has a round for each byte and one more, and a chain of
-- directives on a line no more steps than the line has bytes and one more: both are enough. An
-- evaluation costs a unit for each call; makefiles may recurse without end, so no bound is given.
-- A call of BuildPlan costs a unit; where fuel runs out the plan is aborted. The parsers of Find
-- cost a unit for each call and refuse where it runs out; its walk, FindDir and FindNodes cost a
-- unit for each step to another entry, so that a tree without cycles needs no more than it has
-- entries; where a chain of links is longer than the fuel, is_directory takes it for no
-- directory. The substitution in Pattern::AppendSubst takes its fuel as an argument and delivers
-- none where it runs out: under a condition on the stem one round more than the replacement has
-- bytes is enough, and without it no fuel is.
--
-- Not modelled: reading and writing files, the calls of the operating system, the evaluation of
-- statements but for assignments, the reading of directories by the find emulator, the variables
-- named .KATI of targets, the writing of the ninja file and the running of recipes.
-- std::stable_sort is modelled as an insertion that keeps equal elements in order; strtol and
-- sprintf by what the C standard says of them.
pub mod Prelude
pub mod Piece
pub mod Strutil
pub mod Func
pub mod Rule
pub mod Dep
pub mod Var
pub mod Eval
pub mod Find
pub mod Ninja
pub mod Expr
pub mod Parser
mod Examples
