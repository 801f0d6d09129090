-- ===== src/Lib.antt =====
-- A model of the Python programs of this repository and theorems about them.
--
-- The repository is a C++ project (cppecho/, flatasync/) with Python tools beside it. By far the
-- largest is tools/cpplint/cpplint.py, the style checker that tools/checkstyle.sh runs over the C++
-- sources. It is a copy of the cpplint of Google, and it is the main program modelled here.
--
-- The parts and their files:
--   * Prelude: the names of the library used everywhere, Boolean tests on numbers, lists, integers.
--   * Python/Str: the methods of str on texts, which are lists of character codes. Laws has the
--     lemmas on prefixes and suffixes. Lower and upper case are those of ASCII.
--   * Python/Regex: the syntax of regular expressions that the patterns use, a backtracking matcher
--     in the order of Python's `re` (first alternative first, greedy repetition), Match, Search and
--     ReplaceAll. A match is an executable function, so a pattern can be run on a text. Sound
--     relates each match to a step relation; Groups reads the groups of a match off it, Tail what is left
--     behind it, Scan what a pattern for the first of some characters finds, Within where a match
--     stands, and Iter is `findall`.
--   * Python/Path: the functions of os.path on POSIX. Laws has the lemmas on directories.
--   * Cpplint/State: class _CppLintState: output format, verbosity, filters and their backup, error
--     counts. Filters and Counts have its theorems.
--   * Cpplint/Categories: the lists of error categories.
--   * Cpplint/Suppress: NOLINT comments and the files that are suppressed as a whole.
--   * Cpplint/Report: _ShouldPrintError and Error, over State and Suppress: the state `Linter` is
--     what the module keeps in its globals, with the text written to the two streams. An
--     AssertionError is none.
--   * Cpplint/Includes: class _IncludeState. A section is a number as in the source. Branches is about
--     ResetSection and the includes that are added behind it.
--   * Cpplint/Cleanse: raw strings, strings and comments, and class CleansedLines.
--   * Cpplint/Expression: CloseExpression and ReverseCloseExpression. An IndexError is none.
--   * Cpplint/Files: class FileInfo, PathSplitToList, _DropCommonSuffixes, FilesBelongToSameModule;
--     Headers has _ClassifyInclude. FileSystem is the working directory and os.path.exists.
--   * Cpplint/Guard: the header guard variable and CheckForHeaderGuard, over Files and Report.
--   * Cpplint/Functions: class _FunctionState and CheckForFunctionLengths.
--   * Cpplint/Nesting: class NestingState and the blocks on its stack. Blocks has the methods of a block,
--     Templates InTemplateArgumentList, Update the method Update, with the access specifiers in Access.
--     Of Update's children Conditionals, Frames, Regions, Braces, Balanced, Stacks and Total are about its
--     stack: what a conditional of the preprocessor leaves, what the braces of a line do, and that an
--     update ends.
--   * Cpplint/Style: checks of one line, over any handler of errors. Rules has CheckStyle, which calls
--     those of Braces (Bodies has the bodies without braces), Semicolons, EmptyBlocks, Blanks and Comments
--     (CheckSpacing), Operators, Spacing, Types (CheckBracesSpacing), Calls and Macros (CheckCheck, with
--     the search for an operator in Operands, and CheckAltTokens). Width has GetLineWidth, over the tables
--     of unicodedata as a parameter. Lines has the small checks, Inheritance virtual and override, and
--     Constructs CheckForNonStandardConstructs, with its constructors in Explicit.
--   * Cpplint/Language: Includes has CheckIncludeLine, over Includes and Files/Headers, Printf CheckPrintf
--     and _GetTextInside, Casts CheckCasts with CheckCStyleCast in CStyle, Globals CheckGlobalStatic, Arrays
--     the check for arrays of variable length, and Rules CheckLanguage, which calls them. References has
--     CheckForNonConstReference, with what it asks about the line in Context. Printf's
--     child Inside is about what _GetTextInside finds. An IndexError is none.
--   * Cpplint/WholeFile: the checks for a copyright, bad characters and the last line feed.
--   * Cpplint/Config: ProcessConfigOverrides. Disk is the files, and how `re` matches a pattern that a
--     file holds.
--   * Cpplint/Driver: ProcessFile and the loop of main, over Config and Report, for any function in the
--     place of ProcessFileData.
--   * Hooks: tools/install_hooks.py, on a tree of directories and files. Uninstalled has its theorem.
--
-- A file of the name Tests holds runs on concrete inputs and the instances of the theorems.
--
-- Bounds and fuel: Python's integers have no bound, and none is added. The loops of CleanseRawStrings
-- and _CollapseStrings run on fuel, one more than the length of the line, since each round either ends
-- the loop or leaves a shorter text. RemoveMultiLineComments has a round more than the file has lines;
-- each round but the last passes a line. RepositoryName and ProcessConfigOverrides climb from directory
-- to directory on fuel, one more than the length of the path, since a directory's path is shorter; where
-- RepositoryName would climb for ever its result is none. A repetition in a regular expression ends
-- because a round that consumes nothing ends it, as in `re`.
--
-- On errors: an exception that ends the program (AssertionError, ValueError, re.error, IndexError) is
-- none, and the state that it would leave is not kept. In CheckSpacing, CheckBraces,
-- CheckBracesSpacing with _IsType, and CheckOperatorSpacing the lines that the check looks at and the
-- lines behind or above it are read by get_elem?, whose none is the IndexError. Elsewhere, and in the
-- loops upwards from a line of the file, a line is read by get_or, with an empty line where there is
-- none: the IndexError of such a read is not modelled, and no theorem speaks of it. The columns that
-- CloseExpression and ReverseCloseExpression read are partial everywhere.
--
-- Not modelled: CheckForIncludeWhatYouUse; CheckForNamespaceIndentation, which asks whether two blocks
-- are the same object, where a block here is its value; ProcessLine and ProcessFileData, which call
-- the checks; ParseArguments; tools/utils.py; the C++ sources; build files and shell scripts. Names
-- that are sets or dictionaries in the source are lists here, and the order of the elements in a
-- message is that of the list. The test isdigit is that of ASCII.
pub mod Prelude
pub mod Python
pub mod Cpplint
pub mod Hooks
