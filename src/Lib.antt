-- ===== src/Lib.antt =====
-- Verification of videobackup, which records camera streams in segments, encrypts them with gpg,
-- uploads them with rclone to Google Drive, and keeps the local spool and the remote folder within
-- their limits.
--
-- The parts and the files that model them (paths from the repository's root):
-- - videobackup/config.py: Config.antt (the records, the slice of an upload, the paths) and Config/Load
--   (the loading of the file); proofs in Config/Accepted and Config/Distinct.
-- - videobackup/retention.py, the pure part: Retention.antt; its proofs are in Retention/Order,
--   Retention/Least, Retention/Settled and Retention/Cap.
-- - videobackup/retention.py, the local spool: Spool.antt; proofs in Spool/Names, Spool/Chosen,
--   Spool/Quiet, Spool/Bound, Spool/Left and Spool/Raw.
-- - videobackup/retention.py, the remote folder: Drive.antt; proofs in Drive/Lines, Drive/Quiet,
--   Drive/Stamps and Drive/Room.
-- - videobackup/encrypt.py: Encrypt.antt; proofs in Encrypt/Safe, Encrypt/Steps, Encrypt/Safety,
--   Encrypt/Finish, Encrypt/Open and Encrypt/Sorted.
-- - videobackup/rclone.py: Rclone.antt; proofs in Rclone/Laws.
-- - videobackup/uploader.py: Uploader.antt; proofs in Uploader/Members, Uploader/Moved,
--   Uploader/Parts and Uploader/Landed.
-- - videobackup/main.py: Main.antt (one batch cycle, and the loops; proofs in Main/Survive, Main/Stop,
--   Main/Footage, Main/Progress and Main/Gate; Main/Guarded has what the loops rely on and guarantee
--   while other threads act, as laws of a host, and its children the proofs) and Command.antt
--   (`run_all`, and `main` with its exit codes; proofs in Command/Exits).
-- - videobackup/recorder.py: Ffmpeg.antt (the command; proofs in Ffmpeg/Segments), Recorder.antt (the
--   stall guard and the supervisor of a camera; proofs in Recorder/Backoff, Recorder/Stalled,
--   Recorder/Watchdog and Recorder/Ends) and Recorder/Fleet (`start`, `stop` and
--   `run_forever`; proofs in Recorder/Fleet/Stopped).
-- - videobackup/viewer.py: Viewer.antt (the decryption and the handlers), Viewer/Layout (the window, its
--   screen and its texts) and Viewer/System (the steps of the window and its threads, in any order);
--   proofs in Viewer/Files, Viewer/Handlers, Viewer/Closing, Viewer/Threads, Viewer/Leak, Viewer/Kept,
--   Viewer/Turns, Viewer/Owned and Viewer/Format.
-- - Base and its children: integers, lists, texts, Python's dynamic values, the monad of effects, and
--   Base/Keeps, the rules by which an action keeps a property of the state; the modules called Keeps
--   beside the parts apply them, for a host whose operations keep it (Host/Frame).
-- - Host.antt is the interface to the machine; Host/Memory.antt is a host in memory, Host/Stops.antt a
--   host whose stop event is set in the end, Host/Quiet.antt what keeps a property of the files alone, and
--   Host/Shared.antt a host in memory on which others take turns. Examples.antt has runs and the
--   theorems at concrete data, on the machine of Examples/Machines.antt; its children are for the
--   configuration (Settings), the recorder (Recording, Supervising), the loops (Ending, Gate,
--   Interleaving), the encryption (Encrypting), the upload (Uploading), the commands (Commands) and the
--   viewer (Viewing).
--
-- A function of the source has its own name here, without a leading underscore; a loop or a `try`
-- block of it is a definition of its own beside it. Effects: a definition runs on a host, the record
-- of the operations that the program calls (files, clocks, `subprocess.run`, the stop event). A host
-- has a state of its own, and each operation takes it, returns the next one, and may raise; the
-- exceptions are the data type Exn of Base/Effects.antt. Statements about failures hold for every
-- host, so for every interleaving with other threads and processes whose steps fall between two
-- calls. Statements about what is left behind hold on the host in memory, on which nothing else acts,
-- or on the shared one, where a schedule says what the other threads and processes do before each
-- operation, and the states that the machine goes through are kept. gpg and rclone are parameters
-- there too, and the records IsGpg, Works, IsRclone and IsMove say what is relied on.
--
-- Numbers: sizes and settings are Python's integers (ℤ), times are whole microseconds since the
-- epoch, in place of datetimes and of float timestamps. A text is the list of its code points, and
-- letters change case within ASCII. A path is a directory and a name in it.
--
-- Loops: those over lists are recursion on the list. The endless loops of main.py and of recorder.py
-- run on fuel, a bound on their rounds, with a result of its own where it runs out. They end by the
-- stop event alone, so enough fuel is more rounds than the answers "not set" that the event has left,
-- which a measure of the state counts.
--
-- Threads: the loops of `run_all` and the recorders of the cameras are started by operations of the
-- system, and so are their processes and the signal handlers; the steps of the others fall within the
-- operations of a host. The viewer's threads are a step relation on the window's state.
--
-- Not modelled: log messages; the parsing of the arguments by argparse; of the viewer the frames and
-- labels, which are calls of Tk. A message box of the viewer is shown until a later step
-- closes it. PyYAML,
-- `str`, `repr` and `==` on its values, and `strptime` are parameters.
pub mod Base
pub mod Command
pub mod Config
pub mod Drive
pub mod Encrypt
pub mod Examples
pub mod Ffmpeg
pub mod Host
pub mod Main
pub mod Rclone
pub mod Recorder
pub mod Retention
pub mod Spool
pub mod Uploader
pub mod Viewer
