-- ===== src/Lib.antt =====
-- Verification of the decentralised identity provider.
--
-- A user registers with a password. The registration service derives an identity secret, splits it
-- by Shamir's scheme into five shares, three of which recover it, gives one share to each of five
-- nodes, and writes the public key and a hash of the secret to an append-only ledger. To
-- authenticate, the user signs a single-use challenge; the nodes answer it with their shares
-- scaled by a number H that the challenge determines, a consensus round keeps the answers that
-- agree, and three of them recover the secret, whose hash is compared with the ledger's.
--
-- - Crypto: crypto/. Lagrange (lagrange.py), Sss (sss.py), Hkdf (hkdf.py), Feldman (feldman.py)
--   and Keyfile (keyfile.py) hold the code; Interpolation (with AtZero) and Recovery prove that
--   the loops of lagrange_interpolate compute the value at 0, Totality when they raise, and
--   Sharing, TwoShares and Commitments what follows. Pqc is pqc.py.
-- - Node: node/. PartialProof (partial_proof.py), Pbft (pbft.py), ShareStore (share_store.py),
--   Answers (node.py, with its key files in KemKeys), Transport (LocalTransport of transport.py,
--   with Lookup) and Http (the rest of transport.py).
-- - Ledger: ledger/ledger.py; Chain, Tamper, Registry and Listing hold the proofs.
-- - Registration: registration/register.py; Distribution, Recoverable and Readiness hold the
--   proofs.
-- - Authentication: authentication/. Challenge (challenge.py, with SingleUse and Board),
--   SystemKeys (with Restart) and Tokens (both iat.py; Tokens with Validity, Encoding and
--   RoundTrip) and Flow (authenticate.py), with its proofs in CleanUp, Soundness, Success,
--   Completeness, Assertion and, over Sublists and Search, Tolerance.
-- - Api: api/main.py, with NodeService (node_service.py); Equivalence, Collection and
--   Transports, and EndToEnd over Gathering hold the proofs.
-- - Simulate: simulate/attacks.py; Crash, Theft and Replay hold the proofs.
-- - Prelude and Arith hold the shared lemmas, on lists, results, congruence and prime moduli;
--   Stdlib what the code uses of Python (bytes, texts, hexadecimal, dictionaries, Counter, JSON
--   values, files); External the cryptographic primitives, which are parameters; Tests the runs on
--   concrete inputs.
--
-- Numbers are natural numbers, as Python's integers do not wrap; a negative difference under `%`
-- is written out. Bytes and texts are lists of numbers, a text by its UTF-8 bytes. Exceptions are
-- values of Result. What the random sources and the clock return is passed in, and times are
-- microseconds. SHA3, HMAC, AES-GCM, PBKDF2, liboqs, Ed25519, the network, the decoder of base64
-- and the json module are records of functions, with their documented behaviour as named
-- hypotheses: IsHashing, IsAead, IsCodec, IsSignature, IsBase64. That two given messages do
-- not collide is a hypothesis where a theorem needs it. All loops run over lists or count down;
-- the one with fuel, the decimal digits of a number, has the number and one more as fuel.
--
-- Not modelled: the command line (cli.py) and the demonstration (simulate/run_demo.py), which are
-- input and output around these services; what FastAPI checks before an endpoint runs, and answers
-- over HTTP that are no proofs; a stored commitment that is no text, which no code writes; and
-- what is printed. The modulus is a parameter of the functions, as in the source, and its
-- primality a hypothesis. The services take the keys of the nodes and of the system as
-- arguments.
pub mod Prelude
pub mod Arith
pub mod Stdlib
pub mod External
pub mod Crypto
pub mod Node
pub mod Ledger
pub mod Authentication
pub mod Registration
pub mod Api
pub mod Simulate
pub mod Tests
