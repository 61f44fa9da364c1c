-- ===== src/Lib.antt =====
-- wordbreak-backend: the server of a word game with stakes.
--
-- The program. A dictionary (internal/dictionary) holds the valid words. A rack (internal/rack)
-- is drawn from letter bags until the dictionary finds enough words in it. A submission is judged
-- against a rack and the dictionary (internal/game). A room (internal/room) lets up to five
-- players race on one rack, scores each word with the judge, ranks the players, and, where the
-- room is staked, lets in only wallets that have entered its round of the pool contract and pays
-- the contract's pot, less the rake, to the leader when the race is over. The store
-- (internal/store) keeps the daily rounds, the best result of each player and the leaderboard,
-- and writes them to a database (internal/db). The pool contract is read and written by
-- internal/chain; internal/signer signs what it pays out. The handlers (internal/api) put these
-- together, and cmd/server starts them from the environment.
--
-- The files.
--   Base: the shared helpers. Base.Text has Go strings as lists of runes, Base.Assoc Go maps,
--     Base.Sort the stable sort, Base.Decimal `big.Int`'s decimal form, Base.Lists and Base.Int
--     the lists and integers over the native ℕ.
--   Dictionary: internal/dictionary/dictionary.go. `new_from_reader`, `new_from_words`,
--     `contains`, `find_words`, `can_build` are the functions of those names in Go's spelling.
--     Dictionary.Letters is on letter counts, Dictionary.Words on the set of words.
--   Game: internal/game/score.go. `score` is `Score`, `score_word` one round of its loop, `judge`
--     the end of that round. Game.Verdicts cuts a round into its branches; Game.Kept,
--     Game.Accepted, Game.Rejected, Game.Single and Game.Points are on what comes out.
--   Rack: internal/rack/rack.go. Rack.Balance is on one draw, Rack.Playable on the retries.
--   Room: internal/room/room.go. Room.antt has the room, its ranking and its snapshot;
--     Room.Services what it needs of the chain; Room.Race `Join`, `Start` and `Submit` on a room;
--     Room.Settle the settlement; Room.Manager the rooms by their codes and the calls of the HTTP
--     layer. Room.Submission and Room.Ranking are on one call and the ranking, Room.Invariant,
--     Room.Moves and Room.Kept on what every call keeps, Room.Lifecycle and Room.Registry on
--     sequences of calls on a room and on the manager, Room.Listing on the list of open rooms,
--     Room.Over on a race that is over, Room.Codes and Room.Answers on the codes, Room.Entry,
--     Room.Opening, Room.Payment, Room.Creation and Room.Settlement on stakes, Room.Begun and
--     Room.Paid on a settlement among other calls, and Room.Overbooked on the moment in which
--     `Create` holds no lock.
--   Store: internal/store/store.go. Store.antt has the operations; Store.Best is on `Submit`,
--     Store.Board on `Leaderboard`, Store.Recovery on `GetOrCreateDaily` and `OpenPaidDaily`,
--     Store.Steady and Store.Keyed on what every operation keeps.
--   Db: internal/db/db.go. Db.antt has the tables and what each statement does to them;
--     Db.Persisted makes them a persister of the store, and Db.Restart, Db.Rows, Db.Written and
--     Db.Restored are on a restart of the server.
--   Grid: internal/grid/trie.go and solve.go, the trie and the search of a letter board;
--     Grid.Board is grid.go, the generator of boards. Grid.Walk, Grid.Grow, Grid.Address,
--     Grid.Ended and Grid.Index are on the words of a trie, Grid.Solve, Grid.Found, Grid.Paths,
--     Grid.Beside, Grid.Track and Grid.Complete on what the search finds, Grid.Generated on the
--     boards of the generator.
--   Chain: internal/chain/chain.go, the client, and Chain.Sending writer.go, the writer, over
--     go-ethereum (Ethereum); `reader_of` and `writer_of` fill the interfaces of Room.Services.
--     Chain.Decoded is on the answers that are decoded, Chain.Mined on the transactions.
--   Signer: internal/signer/signer.go; `signer_of` fills the interface of Room.Services.
--     Signer.Accepted is on what the contract finds in a signature.
--   Api: internal/api/api.go. Api.antt has the server, its configuration and the parsing of
--     queries; Api.Solo, Api.Days, Api.Admin, Api.Sign and Api.Rooms have the handlers, by the
--     names of the code. Api.Query is on queries, Api.Gate on who is let through, Api.Signing on
--     signed settlements, Api.Pools, Api.Opened and Api.Created on the creation of a pool,
--     Api.Puzzles on the solo game, Api.Ranked on the rank in a reply, Api.Reopened on a pool for
--     a day that was played, Api.Steady, Api.Calls and Api.Serving on sequences of requests,
--     Api.Settled on a settlement among them. Api.Http has the routes and `decode`,
--     Api.Http.Dispatch the mux behind `withCORS`; Api.Http.Routing, Api.Http.Patterns,
--     Api.Http.Missing, Api.Http.Refused and Api.Http.Serving are on requests over HTTP.
--   Main: cmd/server/main.go, `main` up to the server that it serves; Main.Staking is on what the
--     environment turns on, Main.Running on the server over the requests that it is sent.
--   Tests: the theorems at concrete inputs.
--
-- Choices. A text is its list of runes, so strings are valid UTF-8; `len` is the length of the
-- encoding, and a player's shown name, which the code cuts at byte positions, is a list of bytes.
-- A map with string keys is an association list, whose order is the order of an iteration. A Go
-- `int` that counts points, words or players is a natural number: none comes near its bound. A
-- time is in nanoseconds, and a call reads the clock once. A handler that Go runs under a lock is
-- a function from the state to the new state and the reply. A handler of the HTTP layer takes the
-- decoded request, none where it does not decode, and gives the fields of its reply or a status
-- with a message. A request over HTTP has the segments of its path and the values of its query,
-- as net/http takes them apart, and its reply shows the value that is encoded. In Api.Serving a
-- request that calls the chain is one step, or its parts are steps with others between them: the
-- registration of a room and its opening, the scoring of a submission after its gate, the
-- registration of a pool's days, the parts of a settlement. In `serve_all` each request, and each
-- settlement that the timer runs, meets the answers of the chain and the database of its time.
-- `settleRoom` releases its lock while it waits for the chain, and is `begin_settle`, `pay` and
-- `end_settle`, between which Room.Lifecycle and Room.Registry let any other call happen;
-- `settle_room` runs them with none between.
--
-- Bounds. `generate` tries 300 racks and `freshRoundID` five ids, as in the code. The loop of
-- `freshCode` has no bound: it runs on a list of random reads, and none stands for a loop that
-- needs more of them; one read that gives a free code is enough. The search of a board has fuel
-- for a path through all of its cells and one more; a board has at most 64 cells, one for each
-- bit of the set of used cells.
--
-- Parameters. Unicode's tables above ASCII (UnicodeTables, with laws of the published tables),
-- `math/rand` and the seed's FNV hash (Rng, with the ranges of `Intn` and `Shuffle`),
-- go-ethereum's reading and writing of addresses (Addresses), its packing of an integer as a
-- uint256 and the format of a day (Platform), and the answers of the pool contract and of the
-- signer at the time of a call (Reader, Writer, Signer), which Chain and Signer fill over
-- go-ethereum's network (Ethereum) and cryptography (Crypto); the operations of a persister on
-- its database, where a round that was written is the one that is loaded, but for the letters of
-- an older row (Persister), which Db fills over the way a column rounds a time, and opens over
-- pgx (Pgx). `sort.Slice`, which may order equals in any way, is the stable sort.
--
-- Not modelled: the text of JSON, which a decoder of request bodies (Json) stands for on the way
-- in, and the cleaning of paths in net/http; closing connections; in cmd/server listening on the
-- port, the log and the shutdown; a negative size in the configuration; the embedded word file.
pub mod Api
pub mod Base
pub mod Chain
pub mod Db
pub mod Dictionary
pub mod Game
pub mod Grid
pub mod Main
pub mod Rack
pub mod Room
pub mod Signer
pub mod Store
pub mod Tests
