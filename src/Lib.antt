-- ===== src/Lib.antt =====
-- The native helper of rdp-mcp (native/freerdp-helper/src): it holds one FreeRDP connection, takes
-- commands as JSON, and sends messages to the program round it. Win32.antt is about what the build for
-- Windows adds; the other files are about the other builds.
--
-- Parts, and how they interact:
--   MessageType.antt output.h     the types of the messages
--   Output.antt     output.c     messages to the embedding program, by a pipe or a callback
--   Disp.antt       disp.c       resizes over the display control channel, limited in rate
--   Command.antt    protocol.h   the commands, and their names on the wire
--   Protocol.antt   protocol.c   commands from JSON text, and the memory they own
--   Files.antt      cliprdr_file.c   files over the clipboard channel, in both directions
--     Files/Name.antt      names of remote files as paths
--     Files/Download.antt  the download loop
--     Files/Responses.antt  the handler of responses
--     Files/Download/Exchange.antt  a server that answers, and what the log says is stored
--     Files/Local.antt     files that are offered to the server
--     Files/Channel.antt   the channel, the locks on clipboard data, the list of remote files
--   Input.antt      input.c      mouse and keyboard events
--   Clipboard.antt  cliprdr.c    the clipboard channel: format lists, text, and the way to the files
--     Clipboard/Data.antt    the callbacks with data
--     Clipboard/Steps.antt   the public functions, and sequences of calls
--   Win32.antt      cliprdr_win32.c  the Windows clipboard beside the channel: messages, the public functions
--     Win32/Local.antt    what another program copies there, offered to the server
--     Win32/Listing.antt  the JSON array of copied files, printed into a buffer
--     Win32/Window.antt   the window procedure and the thread
--     Win32/Drop.antt     the layout of CF_HDROP
--     Win32/Roots.antt    the parts for Windows in cliprdr_file.c and cliprdr.c
--   Connection.antt connection.c the life of an instance, its settings, and the channel events
--   Paint.antt      connection.c     the paint callbacks: clipping, conversion of pixels, resizing
--   Pointer.antt    pointer.c    cursors
--   Helper.antt     main.c       the same connection in a process that reads commands from stdin
--   Session.antt    library.c    the connection and its event loop thread
--     Session/Commands.antt  the dispatch of commands, the shutdown, and the steps of the program
--   Json.antt                    what is used of cJSON and of the allocator, as parameters
--   Prelude.antt                 the shared names, lists, integers and bytes
--   Samples.antt, */Runs.antt    concrete values and runs
-- The session takes its commands from Protocol and gives them to Input and Disp, whose states are
-- parts of its own; what it calls of connection.c, cliprdr.c, cliprdr_file.c and output.c is a log.
-- The helper does the same, with the lines of its standard input and its threads in any order. The
-- clipboard has the states of Files and Output as parts of its own, and Paint and Pointer that of Output;
-- the channel events of Connection reach the states of Disp and Clipboard. Win32 has the state of Clipboard
-- as a part of its own.
--
-- How the code is translated. The static variables of a file are one record, and a function of the
-- file, which keeps its name, is a function on that record. The mutex of a file makes each of its
-- functions one step, and a history is a list of steps; where the answer to a request for file contents
-- leaves the mutex in between, what other threads do then is an argument. What FreeRDP, cJSON, the operating system
-- and the clock answer are arguments; what they are asked is a log, newest first. A read outside a
-- buffer or an array is `none`. Numbers are natural numbers, an `int` is an integer, and every
-- conversion and wrap-around of the code is written out.
--
-- Fuel. Only the download loop of Files/Download.antt runs on fuel, the number of entries that are
-- left. A round that goes on passes an entry, so this is enough. The exchange with a server in
-- Files/Download/Exchange.antt and the message pump run for a number of rounds that a theorem names.
--
-- Not modelled: the certificate callbacks of connection.c, which accept every certificate; the wait of
-- cliprdr_win32.c for its thread; launcher.c; cJSON, which is another project's library; the
-- initialisation of mutexes, and diagnostics on stderr.
pub mod Prelude
pub mod MessageType
pub mod Output
pub mod Disp
pub mod Json
pub mod Command
pub mod Protocol
pub mod Files
pub mod Input
pub mod Clipboard
pub mod Helper
pub mod Connection
pub mod Paint
pub mod Pointer
pub mod Session
pub mod Win32
pub mod Samples
