-- ===== src/Lib.antt =====
-- grantseal: offline software licenses. A license is a payload that an issuer signs; a client
-- authenticates it against a ring of public keys, applies a policy to it, and keeps two marks on disk
-- against replay, one for the clock and one for revocation lists.
--
-- The parts, from the inside out, and the files of the repository that they model:
--   Code           the error codes (pkg/license/errors.go)
--   Json           JSON values, the strict decoding (pkg/license/strictjson.go) and the canonical encoding
--                  (pkg/license/canonical.go)
--   Time           instants and durations (package time, pkg/license/clock.go)
--   Fingerprint    device binding values (pkg/fingerprint/scheme.go) and the computation of fingerprints and
--                  request codes (pkg/fingerprint/fingerprint.go)
--   Version        semantic versions, parsed and compared (pkg/license/version.go)
--   Payload        the payload and its static validation (pkg/license/model.go)
--   Features       the features that a payload grants (pkg/license/features.go, HasFeature of result.go)
--   KeyRing        public keys and their life cycle (pkg/license/keyring.go)
--   Verifier       envelopes and their verification (pkg/license/envelope.go, verifier.go)
--   Validator      the policy pipeline (pkg/license/validator.go) and its result (result.go)
--   Limits         the limit checks and the remaining time (pkg/license/result.go)
--   AtomicFile     the atomic write of a state file (atomicWriteFile of pkg/license/rollback.go)
--   Rollback       the mark of the clock (pkg/license/rollback.go)
--   Revocation     signed revocation lists and their marks (pkg/license/revocation.go and
--                  revocation_state.go)
--   Issuer         keys and their files, issued licenses and revocation lists (internal/issuer/keygen.go,
--                  signer.go, issue.go and revoke.go)
--   Manager        the facade that calls all of these (pkg/license/manager.go)
--   Samples        test data; every part has its runs and examples in a module Tests
--   Prelude        shared helpers: tests, lists, texts, maps, options, results
--
-- How the model corresponds to the source. A function or method keeps its name in lower case with
-- underscores; a child module Tests holds concrete runs, the others hold proofs. Strings and byte slices
-- are lists of numbers, Go maps are lists of entries with one for each key, pointers are options, and a
-- pair of a value and an error is a Result over the codes. A method that changes an object takes and
-- returns its state: the key ring, the in-memory store of marks, the manager, and the rollback file, which
-- is missing or holds bytes. A mutex makes each method one step, so concurrent callers of one process are
-- a sequence of calls; two processes that write one file are outside the model, as they are outside the
-- contract of the store. Failures of system calls are arguments (AtomicFile.Faults,
-- Issuer.KeyFiles.WriteFaults), and so are the readings of the clocks.
--
-- Numbers. uint64 values are natural numbers, with the bound stated where a theorem needs it; the product
-- of the grace period keeps its wrap-around (scale_int64). Instants are nanoseconds from the earliest
-- instant, and the latest is left unbounded. Fuel stands for loops in four places. The binary search
-- in Features has the length of the list and one more, and each round halves the interval. The scan in
-- Json.Strict has the number of tokens and two more, and a value with all its delimiters uses at most one for
-- each token; tokens without a closing delimiter are refused with any fuel. In Fingerprint.Compute,
-- the text of a number has 19 rounds, one for each digit of an int, and in Fingerprint.RequestCode
-- the groups of a code have one for each character.
--
-- Parameters. Json.Strict.Decoder is what encoding/json yields for an input: its tokens and the value.
-- Verifier.Library holds base64, Ed25519, and encoding/json: the tree of a payload, the quoting of a text and
-- the decoding of bytes, Revocation.List.ListLibrary the same for revocation lists, with SHA-256;
-- Rollback.Codec holds JSON, HMAC-SHA256 and hex. What the rollback store relies on is the record
-- Rollback.Load.IsCodec: hex decodes what it encodes, and a written record reads back and fits 4 KB.
--
-- Revocation.FileStore.FileLibrary is the like for the file of the revocation marks, with its laws in
-- FileStore.Loads.IsFileLibrary; Fingerprint.Compute.HashLibrary holds the Unicode operations on texts and
-- the hashes; Issuer.PrivateKey.KeyLibrary and Issuer.Signer.Signing hold base64, hex and
-- Ed25519 for the issuer, whose laws are about private keys that a seed makes. What is issued is read
-- back under a condition on that one payload or list (ReadsBack): its JSON, in the order of encoding/json,
-- decodes to it.
-- For the file of marks, whose law says that JSON gives back what was written, a predicate IsText stands for
-- the texts that JSON carries unchanged.
--
-- Not modelled: the collectors and the command line.
pub mod Prelude
pub mod Version
pub mod Fingerprint
pub mod Code
pub mod Time
pub mod Payload
pub mod Features
pub mod Validator
pub mod KeyRing
pub mod AtomicFile
pub mod Rollback
pub mod Limits
pub mod Verifier
pub mod Manager
pub mod Samples
pub mod Revocation
pub mod Issuer
pub mod Json
