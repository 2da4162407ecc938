-- ===== src/Lib.antt =====
-- livetich-api: the server of a live-class platform (NestJS over PostgreSQL and Redis). Teachers and
-- students meet in rooms over web sockets; around the rooms stand courses, exams, the memorization log
-- of the Qur'an, and ways to sign in.
--
-- How the modelled parts hang together. A gateway takes messages of sockets that have joined a session,
-- checks who may do what, calls a service that keeps the state, and emits what the service answers. The
-- terminal gateway does so over the terminal service, the room gateway over room state in Redis and the
-- points ledger, and the tunnel service answers HTTP requests with what a host's socket sends. The other
-- services answer HTTP requests from rows of the database. The token's claims (Identity) decide in each.
--
-- Which file models what:
--   Prelude             text, dictionaries, HTTP errors; text is a list of UTF-16 code units
--   Identity            src/auth/jwt-payload.ts: the claims that are read
--   Terminal            src/terminal/terminal.service.ts: the map of sessions to terminals, one function
--                       per method (open_terminal is openTerminal, and so on)
--   Terminal/Gateway    src/terminal/terminal.gateway.ts: one function per message; the result is the
--                       state and the list of emissions
--   Tunnel              src/tunnel/tunnel.service.ts: forwarded ports and pending requests; the calls on
--                       an Express response are recorded in the order in which they are made
--   Buzzer              src/room-gateway/room.gateway.ts (onBuzzerStart, onQuizAnswer, timeoutBuzzer)
--                       over the two keys of src/room-gateway/room-state.service.ts; handlers are cut at
--                       their awaits, and an interleaving is a list of the places of the handlers that step
--   Room                src/room-gateway/room.gateway.ts: joining, leaving and losing a connection over the
--                       hashes of presence and hands, each handled to its end before the next
--   Room/Stage          the same file's messages by which a teacher controls a room, with hands,
--                       microphones and live annotations, over src/room-gateway/room-state.service.ts
--   Room/Overlap        the awaits of handleDisconnect and setTajweedTemporary, with others in between
--   Redis               what HGET, HSET, HDEL, HLEN and the set commands are documented to do, as records
--   Board               src/board/board-doc.service.ts: the document of a session's board and its
--                       snapshots; methods are cut at their awaits
--   Code                src/code/code.gateway.ts and src/code/code-doc.service.ts: paths (Code), documents and
--                       their limits (Code/Doc), joining, editing and showing (Code/Gateway), and the
--                       other messages (Code/Messages)
--   Points              src/points/points.service.ts: the ledger of one course and its leaderboard in Redis,
--                       with the failures of Redis that are caught and awards in a transaction
--   Schedule            src/sessions/session-schedule.ts: the meetings of a course and when one may be joined
--   Archive             src/coding/coding-archive.util.ts (indexArchive): the index of a submitted archive
--   Tajweed             src/tajweed/tajweed-input.ts: ids, colours, the table of rules, and cleanText
--   Annotations         src/tajweed/tajweed.service.ts: marks that are kept, their versions and their history
--                       (Annotations/Store has one function per transaction, Annotations/Methods, Links, Reads
--                       and Progress the methods)
--   Recordings          src/recordings/recordings.service.ts: the rows of recordings, from start to share link
--                       (Recordings/Taking, Gallery, Retention), and the pass of every minute in
--                       src/recordings/recordings-reconciler.service.ts (Recordings/Reconciler); an event list
--                       (Recordings/Events) has whatever can happen to them, in any order; the parts
--                       of start, with another request in between, are Recordings/Starting
--   QuickAccess         src/auth/quick-access.service.ts: a shortcut's row, its codes and its lock
--   Exams               src/exams/exams.service.ts: authoring, attempts and scoring
--   Hifz                src/hifz/hifz.service.ts (summarize): what a student has memorized
--   Quran               src/quran/surahs.ts: the catalog of surahs and references into it
--   Marks               src/quran/quran-words.ts: the pieces of the text that a mark holds
--   Courses             src/courses/courses.service.ts (assertCanManageCourse)
--
-- State is passed explicitly. A row of the database is an argument, and what a method writes is part of
-- its result; a method that throws answers `err` with the class of the exception. Times are milliseconds
-- and the present is an argument.
--
-- Parameters, since their code is not in the repository: Redis (Buzzer.RoomStore, with what GET,
-- SET and SADD are documented to do, and the hashes and sets of Redis), Yjs (Board.Yjs, with the
-- law that a document's encoded state restores it, and Code.Doc.Yjs), bcrypt (QuickAccess.Bcrypt,
-- with the law that the hash of a code verifies), the sums that the database groups
-- (Points.Store), the division and multiplication of doubles in a score (Exams.Doubles, with the
-- bound on their rounding that IEEE 754 gives), what LiveKit and the object storage answer (Recordings.Reconciler.World), the
-- calendar of a time zone (Schedule.Zone), UTF-8 and base64 decoding, toLowerCase, localeCompare,
-- the segmentation of a word into letters, and the text of the Qur'an. The tests give each of them
-- a concrete function.
--
-- Loops are structural recursion. The only count is the five tries of mintSlug, which is the code's own.
--
-- Not modelled: the rest of the rooms (the board's gateway, the storage of code documents, chat,
-- screen shares, what a late joiner is sent), the states of sessions, how the public URL of a
-- recorder is found, what a recorder and the gallery are told, assignments, coding work and
-- GitHub, accounts and organisations, administration, certificates, mail, storage and monitoring,
-- and the text of messages that a person reads.
pub mod Prelude
pub mod Identity
pub mod Annotations
pub mod Archive
pub mod Board
pub mod Buzzer
pub mod Code
pub mod Courses
pub mod Exams
pub mod Hifz
pub mod Marks
pub mod Points
pub mod QuickAccess
pub mod Quran
pub mod Recordings
pub mod Redis
pub mod Room
pub mod Schedule
pub mod Tajweed
pub mod Terminal
pub mod Tunnel
