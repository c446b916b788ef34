-- ===== src/Lib.antt =====
-- Zeto, a toolkit for private tokens: the client library of zkp/js/lib, the circuits of zkp/circuits
-- with the script that compiles them, the linking of contracts in solidity/scripts, and the storage
-- of the contracts with the tokens and the locks over it.
--
-- A wallet uses the client library to prepare what the circuits and the contracts read. It encrypts
-- the values of a note for the receiver under a shared key (poseidonEncrypt), reads such a
-- ciphertext back (poseidonDecrypt), puts the bytes of an ML-KEM ciphertext together out of 25 field
-- elements (recoverMlKemCiphertextBytes), derives a Baby Jubjub key from a seed (publicKeyFromSeed),
-- and makes nonces, hashes and the array that a proof's hash is taken of. The build script checks its
-- settings, selects circuits, fetches the powers-of-tau files that they need and runs circom and
-- snarkjs for each of them, several at a time. The deployment scripts write the addresses of the
-- libraries into a contract's bytecode before they deploy it. A token's contract checks the inputs and
-- outputs of a call against its storage, has the proof verified, and writes both to the storage.
--
-- Files and code:
--   Base         shared names, lists, options, results, and integers over the native ℕ (a BigInt)
--   Field        zkp/js/lib/util.js: F, two128, addMod
--   Cipher       zkp/js/lib/util.js: validateInputs, poseidonEncrypt, poseidonDecrypt, checkEqual
--   Bytes        zkp/js/lib/util.js: bitsToBytes, bytesToBits
--   Kem          zkp/js/lib/util.js: recoverMlKemCiphertextBytes
--   Keys         zkp/js/lib/util.js: publicKeyFromSeed
--   Digest       zkp/js/lib/util.js: newEncryptionNonce, tokenUriHash, kycHash, encodeProof,
--                getProofHash
--   Build        zkp/circuits/scripts/gen.js: settings and selection (Settings), the powers-of-tau
--                files (Ptau), the commands for one circuit (Circuit), the loop that runs them in
--                parallel (Schedule)
--   Deploy       solidity/scripts/lib/common.ts: linkBytecode (Linking), deploy (Tokens);
--                solidity/scripts/lib/zeto_libraries.ts and solidity/scripts/tokens (Scripts);
--                solidity/ignition/modules (Modules), and both together (Given);
--                solidity/scripts/deploy_upgradeable.ts, from deploy to the last transaction, and
--                deploy_cloneable.ts (Chain)
--   Storage      solidity/contracts/lib/storage/base.sol: BaseStorage; nullifier.sol beside it:
--                NullifierStorage (Nullifier)
--   Token        solidity/contracts/lib/zeto_common.sol, zeto_non_fungible.sol: minting, transfers and
--                the two hooks for locks; zeto_fungible.sol beside it: transfers, deposits,
--                withdrawals and the hooks (Fungible)
--   Locks        solidity/contracts/lib/zeto_lockable_lib.sol and zeto_lockable_storage.sol: creating,
--                updating, delegating, spending and cancelling locks over any token (LockHooks), with
--                the non-fungible token as one (NonFungible)
--   Circuits     zkp/circuits/lib and zkp/circuits/basetokens: the templates of transfers, with and
--                without nullifiers, of deposits, withdrawals and burning (Tokens), and the templates
--                that these are made of
--   Scenarios    zkp/js/integration-test: the tests of transfers, deposits and withdrawals, without
--                nullifiers and with them (Nullifiers)
--   Loader       zkp/js/index.js: loadCircuit; zkp/js/integration-test/utils.js: loadProvingKeys
-- A component's definitions stand in the file of its name, its theorems in the files below it, and
-- its runs on concrete data in Tests.
--
-- State and operations. A function of the library becomes a function of the same name, in antt's
-- spelling. What throws is a result with the source's message as a constructor. An argument whose
-- type the code tests at run time (validateInputs) is a value of a type with BigInts and others. The
-- array `state` of the cipher is a record that each round passes on; the buffer that publicKeyFromSeed
-- changes in place is passed back beside the result. The download folder of the script is an
-- association list from names to contents, which the functions that write to it return; a process
-- that exits is a result that stops the sequence. The parallel loop is a step relation: the code goes
-- from one await to the next, and in between promises are settled, their `finally` callbacks delete
-- them from the set, and a rejection that nothing handles ends the process. A race goes on if any
-- promise of the set has succeeded and may throw if any has failed; which came first is not kept.
--
-- An Ignition module is a program that makes futures and gives some of them by name; a name that a
-- script reads and the module does not give is undefined. The library for locks is a section over a
-- record of what the token under it does (LockHooks), with the laws that are asked of it as another
-- (LockHooksLaws). The fungible token is a section over the storage below it (ZetoStorage). The life
-- of a UTXO is specified apart from the two mappings that the storage keeps, as a machine of four
-- statuses. A circuit's template is a test of whether the values of its signals, which are numbers
-- below F where that matters (Circuits.Signals), satisfy the constraints; where a statement needs a
-- proof, it supposes that the verifier accepts one of whatever field elements satisfy them.
--
-- Loops and fuel. Loops over arrays are structural recursion. The loop of addMod runs on fuel 2,
-- which is enough because the remainder before it lies above -F. toString(2) has as much fuel as the
-- number itself, and a number has fewer binary digits than that.
--
-- Parameters. The permutation of poseidon-lite, the hashes, the arithmetic of Baby Jubjub, the
-- package that reads a buffer as a number, the network, the commands of circom and snarkjs, the
-- random source, the sort of OpenZeppelin, the verifier's verdict on a proof, keccak256 of a lock's
-- name and of an unlock's content, the templates of circomlib, the proofs of snarkjs, the Merkle
-- tree of js-merkletree, the sparse Merkle tree of the commitments, the files of a circuit,
-- and the addresses at which Ignition and the network deploy are arguments. A Solidity mapping is a
-- function, and a call of the token that reverts leaves the storage as it was.
--
-- Not modelled: the log output of the script; names of circuits that JavaScript's objects inherit,
-- such as "constructor", which `circuits[circuit]` finds; seeds of fewer than 32 bytes; newSalt, which
-- only calls a package; the key pair for tests of zkp/js; the Ignition modules that use accounts and
-- parameters, erc20.ts and zkDvP.ts; the branches of the deployment scripts for a token without
-- libraries, since every token's script gives some; the circuits with encryption, KYC, URIs or Kyber;
-- the other contracts and the Go client.
pub mod Base
pub mod Field
pub mod Cipher
pub mod Bytes
pub mod Kem
pub mod Keys
pub mod Digest
pub mod Build
pub mod Deploy
pub mod Storage
pub mod Token
pub mod Locks
pub mod Loader
pub mod Circuits
pub mod Scenarios
