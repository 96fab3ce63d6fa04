-- ===== src/Lib.antt =====
-- A model of Quaxis, a solo and merged-mining server for Avalon devices, and its correctness.
--
-- The program hands jobs to devices, checks what they find, and validates the headers and the
-- auxiliary proofs of work of the chains that it mines. Its parts, and the files that model them:
--
--   Core.Uint256      src/core/primitives/uint256: 32 bytes, lowest first, with the order and the text
--   Core.Target       src/core/primitives/block_header.cpp: bits_to_target, target_to_bits
--   Core.BlockHeader  src/core/primitives/block_header: the 80 bytes, the hash, proof of work
--   Core.Merkle       src/core/primitives/merkle: branches, the padded tree, roots
--   Core.AuxPow       src/core/primitives/auxpow: commitment in a coinbase, proof, slots
--   Core.Validation   src/core/validation: PowValidator, AuxPowValidator
--   Core.Headers      src/core/sync: HeadersStore, HeadersSync::process_headers and
--                     get_block_locator
--   Crypto.Sha256     src/crypto/sha256.cpp and sha256_generic.cpp
--   Bitcoin.Target    src/bitcoin/target.cpp: the other decoder and encoder of compact targets
--   Bitcoin.Block     src/bitcoin/block.cpp: header, template, extranonce in the coinbase
--   Mining.Extranonce src/mining/extranonce_manager.cpp
--   Mining.Job        src/mining/job.hpp and job_manager.cpp: messages of jobs and shares
--   Mining.JobManager src/mining/job_manager.cpp: template, queue of jobs, connections
--   Mining.VersionRolling  src/mining/version_rolling.cpp: rolled versions, the second job format
--   Mining.ShareValidator  src/mining/share_validator.cpp: what becomes of a share
--   Mining.TemplateCache   src/mining/template_cache.cpp: current and precomputed template
--   Core.MtpCalculator     src/core/mtp_calculator.cpp: the median time past
--   Core.Stream            src/core/serialization/stream: reading and writing of bytes
--   Bitcoin.Coinbase       src/bitcoin/coinbase.cpp: the coinbase transaction
--   Fallback.Manager       src/fallback/fallback_manager.cpp, with Fallback.Health and .State; it
--                          calls Fallback.StratumClient, which may end the program
--   Fallback.StratumClient src/fallback/stratum_client.cpp: connecting to a pool, its jobs
--   Relay.FecDecoder       src/relay/fec_decoder.cpp: lost chunks of a block
--   Relay.FibreProtocol    src/relay/fibre_protocol.cpp: the datagrams of the relay
--   Relay.BlockReconstructor  src/relay/block_reconstructor.cpp
--   Network.Protocol  src/network/protocol.cpp, and the parsing loop of asic_connection.cpp
--
-- Definitions carry the names of the source's functions, fields and types in small letters with
-- underscores. Bytes and words are natural numbers, with the wrap-around of their C++ type written
-- out; where a theorem needs that they fit, it says so (IsU32, IsHash256, IsBlockHeader). Arrays,
-- vectors and strings are lists; std::optional and exceptions are Option; an unordered map is an
-- association list (Prelude.Maps); the clock is an argument. An object's method is a function from
-- its state to the state behind the call and the result, and a run is a sequence of calls. The store,
-- the job manager, the extranonce manager and the template cache guard their methods by a mutex. The
-- fallback manager does so only in part, and its runs are those whose calls do not overlap; its
-- `finish_switch` is the part of a switch before which a call of another thread may come.
--
-- The parts meet as in the program: headers are hashed by Crypto.Sha256 and compared by
-- Core.Uint256; validators read headers, branches and commitments; the store takes what the
-- validator passes; the job manager takes templates of Bitcoin.Block and extranonces of
-- Mining.Extranonce; the protocol carries its jobs and shares. Datagrams become chunks, chunks go
-- to the decoder, and the reconstructor announces the block that it decodes.
--
-- Loops whose end is not visible from their text run on fuel: the padding loops, the levels of a
-- Merkle tree and the rounds of compute_merkle_root on the number of leaves, the size of the
-- auxiliary tree on the number of hashes, the parsing loop on the number of messages and the block
-- locator on its rounds, of which 42 do. For each of these it is proved that this is enough. The loop
-- over the parameters of a Stratum notification has no such bound, as there is text on which it does
-- not end; on what the protocol defines, 19 passes are enough. The bits of `depth` are counted on the
-- number itself.
--
-- Not modelled: floating-point difficulty (of which the share validator takes the operations it
-- uses as an interface), sockets, threads, shared memory, RPC and JSON, configuration and output, the
-- SHA-NI transform, which has the contract of the generic one, the template generator, the registry
-- of chains, addresses, the other merged-mining classes, the sockets and peers of the relay, and of
-- the Stratum client the requests and the reading of answers and difficulties.
pub mod Prelude
pub mod Core
pub mod Crypto
pub mod Bitcoin
pub mod Mining
pub mod Fallback
pub mod Relay
pub mod Network
pub mod Tests
