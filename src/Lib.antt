-- ===== src/Lib.antt =====
-- Verification of dbgate-mysql-dumper, a library that writes SQL dumps of MySQL databases and restores
-- them. The dump half introspects a database, orders what it found into archive entries, renders the
-- schema and streams the rows as INSERT statements; the restore half lexes a dump that arrives in chunks
-- into statements, rewrites binary literals that are not UTF-8, and executes the statements. The two
-- meet in the text: what one half escapes the other has to read back.
--
-- Files and the code they model (paths from the repository's root, without the leading src/):
--   Text/*: what the source uses of JavaScript's strings and of Node's buffers, over bytes (UTF-8,
--     white space, letters of either case, regular expressions); no code of the repository.
--   Restore/Parser/*: src/restore/statementParser.ts. State holds the class's fields (Parser), the
--     options, the statements and the errors; Command is tryReadClientCommand and readDelimiterCommand;
--     SqlMode and Banner are trackSqlMode and noteSectionComment; Step is one round of the loop in scan,
--     a function for each case of its switch, over Scan, the parser with scan's local variables;
--     Step/Statement is appendUpTo, appendToStatement, markContent, discardPendingWhitespace and
--     flushStatement; Scan is the loop, push, finish, streamSqlStatements and parseSqlStatements.
--     Invariant/* is what every round keeps, Chunks/* how a round depends on the cut into chunks.
--   Restore/BinaryLiterals: src/restore/binaryLiterals.ts.
--   Restore/Session: src/restore/sessionState.ts without restore; Renderer/Definer: src/renderer/definer.ts.
--   Restore/Dump/*: src/restore/restoreSqlDump.ts. State holds its variables, with what was sent on the
--     connection and answered; Finalize is finalize with restore of the session state; Statements is a
--     round of the loop with maybeRetryWithoutDefiner; Run is the function from the acquired connection
--     on, the body of its try a flow that goes on, stops or throws.
--   Security/*: src/security/literals.ts and src/security/identifiers.ts.
--   Data/*: src/data/chunkBuilder.ts, src/data/valueRenderer.ts and src/data/insertExport.ts, with the
--     columns of src/model/table.ts and the keys of src/model/indexes.ts.
--   Planning/*: src/selection/normalize.ts, src/archive/sectionRules.ts, src/version/types.ts and
--     src/version/capabilities.ts.
--   Planning/Archive/*: src/archive/planner.ts, with src/archive/identity.ts and src/utils/hash.ts. Model
--     holds the data, Plan is addEntry and addDependency over the variables they share, Passes the loops
--     that fill the archive, Cycles is findHardCycles, Inspect is validateOrder and inspectDumpArchive;
--     Maps is the language's Map and sort. The other files prove, from the entries up to the whole.
--   Base/*: shared lists and tests. Examples and each Tests: runs at small inputs.
--
-- Texts of the planner are lists of UTF-16 code units.
-- Bytes: the parser works on latin1 strings, one code unit per byte, so text is a list of numbers; a
-- string that the source decodes is held as its UTF-8 bytes. Errors are values, without their messages.
--
-- Fuel: the loop of scan runs on the length of the text and one round more. A round takes a byte or more
-- while the delimiter is not empty, which the constructor does not check and readDelimiterCommand does.
-- The loop of rewriteBinaryLiterals runs on the length of the statement; each round takes a byte or more.
-- The decimal printer runs on the number and one digit more, findHardCycles on the number of its entries
-- and one more: a call enters an entry that no call has entered. Its loop that pops a component has no
-- result on an empty stack, where the code's does not end. The loop of isRootSetStatement runs on
-- the length of the statement and one round more; a round passes over a comment.
--
-- Parameters: the writer and the connection of the row export (what the writer throws at a chunk, the
-- rows of a query and how their stream ends), toLowerCase of the selection, which goes by Unicode, and
-- createDumpId of the planner, which hashes; for the restore the server (its answer to a statement behind
-- all that was sent), the places at which the signal is set, the error that ends the stream of the
-- statements, and the error that release throws, by how often it was called before.
--
-- Not modelled: the dump session, the renderer of schema objects, introspection, the output streams,
-- the mysql2 adapter and the API that composes them; progress callbacks
-- and the texts of messages.
pub mod Base
pub mod Data
pub mod Examples
pub mod Planning
pub mod Renderer
pub mod Restore
pub mod Security
pub mod Text
