-- ===== src/Lib.antt =====
-- The ZK-eSIM SM-DP+: a server for remote SIM provisioning (osmo-smdpp.py) with its library
-- (pySim/esim), as functions on a session store, with the theorems that make it correct.
--
-- The parts and how they interact. A client runs through four requests. `initiateAutentication`
-- opens a session in the store; `authenticateClient` checks the client's certificate, its signature
-- and, in zk mode, the eligibility data that an operator has signed, with a proof that a pseudonym is
-- in the operator's Merkle accumulator; `getBoundProfilePackage` agrees on keys with the client and
-- binds a profile to them by the BSP protocol; `handleNotification` and `cancelSession` end the
-- session.
--
-- Files:
--   Common            lists, Boolean tests, exceptions as values (Outcome), objects that methods
--                     change (Action), byte strings and hexadecimal text
--   Merkle            MerkleAccumulator of pySim/esim/rsp.py: roots (Root), proofs (Proof, Verify), one call
--                     (Accumulator) and any sequence of calls (Histories)
--   X509              pySim/esim/x509_cert.py: certificate chains
--   Tlv               the interface of the TLV functions of pyosmocom, and a codec that fills it
--   Extract           extract_euiccSigned1 and extract_euiccSigned2 of pySim/esim/rsp.py
--   Bsp               pySim/esim/bsp.py: padding, segments, encryption and MAC; that the sender succeeds
--                     (Total), and that its output is a sequence of TLVs (Tlvs)
--   Pmo, ActivationCode   pySim/esim/__init__.py
--   Session           RspSessionState and RspSessionStore of pySim/esim/rsp.py, with their pickled form
--   Es8p              pySim/esim/es8p.py: profile packages, and how they are decoded; a package taken
--                     apart (Split), opened part by part (Profile) and from end to end (RoundTrip)
--   Smdpp             osmo-smdpp.py: messages and configuration (Smdpp), signatures, certificates, the
--                     ZK extension (Eligibility), the handlers (Initiate, Authenticate, Download,
--                     Finish), what stands around them (Http), the EID ranges (Eid) and the decoder of
--                     object identifiers (Oid); what the handlers do to the store (Opening, Sessions),
--                     what is verified when they return (Verified, Bound), proofs and paths (Proofs),
--                     tokens (Tokens)
--   Smdpp/Machine     the life of a session as a machine that knows nothing of messages: what each
--                     handler does to it (Keeps, Effects), and for which session (Moves), requests as
--                     steps of the store (Steps), and whole histories of requests (Laws, Histories,
--                     Order)
--   Utils             pySim/utils.py: command APDUs, check digits and ICCIDs, the codes of networks and
--                     subscribers, access technologies, data objects, status words and card commands
-- The theorems at concrete inputs are in the files called Runs, and the small server that they use is
-- in Smdpp/Toy.
--
-- State and operations. The store is the list of its items. Reading it yields a copy, as from the
-- shelf, which pickles its values in a file and in memory alike, so that a change is kept only by a
-- write. A handler is an Action on the store: it returns a value or an exception, beside the store
-- that it leaves, so that what was written before an exception stays. An exception is a value by its
-- class, and ApiError by its two codes.
--
-- Parameters. SHA-256, ECDSA, AES, the key derivation and the parsing of certificates
-- (`cryptography`, pycryptodome), the ASN.1 codec (asn1tools), the TLV functions (pyosmocom), base 64,
-- the clock, random values and the file system are parameters, the fields of Backend, Codec, Ciphers
-- and Tlv. The ICCID that pySim/esim/saip reads from a profile is one of them. What the theorems use
-- of them is a hypothesis: CipherLaws, TlvLaws and CodecLaws, or one of the theorem's own.
--
-- Bounds and fuel. The loops of the accumulator run on as much fuel as there are nodes, and a level has
-- half as many. The cuts of a text into segments, of a proof into hashes and of a sequence into its
-- members run on as much fuel as there are bytes, and each round takes one at least; so do the loops
-- over data objects and over the arcs of an object identifier. The loop that splits an activation code
-- runs on the text itself. A chain of certificates runs on the `max_depth` of the code. Python's
-- integers have no bound; where the code writes a number in 16 or 32 bytes, the exception of a
-- greater number is modelled.
--
-- Not modelled: the routes of the web server and JSON itself (a request's body is what `json.loads`
-- gives), base 64 in responses, debug output, revocation lists, and the start-up of the server. No
-- handler calls the checks of EID ranges; they are modelled on their own. Of pySim/utils.py, ATRs, the
-- formatting of tables and the remaining encodings are left out. The rest of pySim (the card file
-- system, readers, command-line tools, profile elements) is not used by the server and not modelled.
pub mod Common
pub mod Merkle
pub mod X509
pub mod Tlv
pub mod Extract
pub mod Bsp
pub mod Pmo
pub mod ActivationCode
pub mod Session
pub mod Es8p
pub mod Smdpp
pub mod Utils
