-- ===== src/Lib.antt =====
-- Verification of the core of Accumulate: the Merkle trees and receipts that anchor every chain, the
-- sorted sequences that accounts keep, the URLs that name accounts, and the account rules and
-- transaction handlers of the protocol.
--
-- The program's parts and their files here:
--
-- * Merkle state, smt/managed/merklestate.go and hash.go. `Merkle.Hash` is `Hash` and its digest,
--   with SHA-256 as the section parameter `sum`, of which nothing is assumed: what needs it to be
--   collision free says "or the digest has a collision" instead. `Merkle.State` is `MerkleState`
--   with `Pad`, `Trim`, `AddToMerkleTree`, `GetMDRoot` and `GetIntermediate`; `Merkle.Forest`,
--   `Merkle.Root`, `Merkle.Binding` and `Merkle.Counter` are about it.
-- * Receipts, smt/managed/receipt.go: `Merkle.Receipt` is `Apply`, `Validate`, `Contains`, `Combine`
--   and `CombineReceipts`, with child modules for their laws.
-- * Hashers, internal/encoding/hash/hasher.go: `Merkle.Cascade` is `MerkleCascade` and `MerkleHash`.
-- * Sorted sequences, internal/sortutil/sort.go: `Sorted.Search` is the package, `Sorted.Contract`
--   what the search promises, and `Sorted.Keys`, `Sorted.Sets` and `Sorted.Removal` what that makes of
--   a list without equal keys.
-- * URLs, pkg/url/url.go: `Url.Text` has the functions on strings, `Url.Parts` the type `URL` and its
--   methods, `Url.Order` their laws, `Url.Pages` ParseKeyPageUrl of protocol/protocol.go.
-- * Accounts, protocol/: `Protocol.Accounts` is token_account.go, credits_account.go and lock.go on the
--   records of types_gen.go; `Protocol.Auth` is account_auth.go, the client of sorted sequences and
--   URLs.
-- * Key pages, protocol/keys.go, authority.go and access_control.go: `Protocol.Keys` is `KeyPage` and its
--   methods, with `Protocol.Keys.Order`, `Insert` and `Delegates` on what they find and keep;
--   `Protocol.Access` is the bit set of transaction types.
-- * Key page executors, internal/chain/update_key_page.go and update_key.go: `Chain.KeyPages` is
--   `UpdateKeyPage.Validate`, the client of key pages; `Entries`, `Invariant`, `Run` and `Allowed` are
--   about it. The database is the function `load` from a URL to a key book. `Chain.AccountAuth` is
--   update_account_auth.go, the client of account authorities, where `exists_` tells if the database has
--   a local authority.
-- * Fees, protocol/fee_schedule.go: `Protocol.Fees`, of a transaction given by the length of its
--   encoding, by whether its principal is a partition, and by what its body has for the fee.
-- * Token executors, internal/chain/send_tokens.go, issue_tokens.go, burn_tokens.go and the synthetic
--   transactions they submit: `Chain.Tokens`. An executor returns what it stores and what it submits.
--   `Chain.Tokens.Ledger` puts them together: a step is one transaction executed, or failed with its
--   refund, and the submitted transactions wait in any order. A refund that fails itself is no
--   step: `DidFail` sends nothing back then, and its tokens are gone. The accounts of a ledger are of one
--   token. `Chain.Locks` is lock_account.go, with the steps of an account that is locked; BurnTokens does
--   not look at the lock and is not among them.
--   `Chain.Credits` is add_credits.go and synthetic_deposit_credits.go: the price of the oracle and the
--   loaded ledger, or the error of loading it, are arguments, and a deposit carries the account it is sent
--   to. `Spent`, `Settled` and `Rate` are about it. `Protocol.Lite` is what they use of protocol/protocol.go,
--   the key hash in the URL of a lite identity or a lite token account.
-- * Chains of hashes, smt/managed/merklemanager.go and merklemanagerrange.go, the client of the Merkle
--   state: `Merkle.Manager` is `AddHash`, `GetState`, `GetAnyState`, `GetIntermediate` and `GetRange`;
--   `Merkle.Manager.Holds` says what the records of a chain with given elements are, and `Adding`, `AddAll`,
--   `Marks`, `Slices`, `AnyState` and `Range` what the methods make of them. A record gives back what was put in it last.
--   `Merkle.Building` is GetReceipt and BuildReceipt of receipt.go, their client: `Blocks` has the hashes of
--   the subtrees, `Rounds` and `Columns` the loop up to the largest subtree that is complete and `Pending`
--   the loop on to the root. The first loop has 130 rounds: two for each height of 63 at most, and some to
--   spare. `Merkle.ReceiptList` is receiptlist.go, their client, and
--   `Merkle.Hasher` is Receipt of internal/encoding/hash/hasher.go, which calls BuildReceiptWith too.
-- * Patricia tree of the accounts' hashes, smt/pmt: `Bpt` is Insert and Get of bpt.go, `Bpt.Update` its
--   Update, and `Bpt.Receipt` is bpt_receipt.go, which makes receipts of smt/managed. A tree is a value, a
--   node with two entries, or nil; the DirtyMap is a mark on the nodes. The keys of nodes are different up to
--   height 254, and blank above: `Bpt.Dirty` is Insert with what the map does then, which holds one node
--   under the blank key, the last. Under conditions that exclude such nodes the marks are the map. `Bpt.Trie` says which trees are Patricia trees,
--   `Bpt.Canonical` that a map has one of them, and `Bpt.Update.Summary` what the hash of a tree is.
--   Insert and Get count the bits left of a key, 256 at the root, and with none left they panic, as the
--   index of the key's byte does; Update has 257 rounds, one more than there are heights. `Bpt.Range` is
--   bpt_getrange.go and the loop of bpt_savestate.go that reads the values, `Bpt.Range.Listed` the order of
--   a walk. The nodes are all loaded: byte blocks, the database and a snapshot's file are not modelled.
-- * Binary form, internal/encoding: `Encoding.Writer` and `Encoding.Reader` are writer.go and reader.go on a
--   buffer in memory, and `Encoding.Receipts` the binary form of receipts in smt/managed/types_gen.go, their
--   client. `Fields`, `Written`, `Reading`, `Values`, `RoundTrip` and `ReceiptTrip` are about what is
--   written and read, `Failures` and `Limits` about errors. The varints of encoding/binary are the parameter
--   `Varint`, with what is documented of them in `IsVarint`.
-- * Records, internal/database/record/value.go and kv_store.go: `Records` is the value of one key in a stack of
--   batches over the key-value store, as batch.go nests them. `Records.Coherent` and `Committed` say what the
--   values loaded on the way amount to, and `History` what a history of calls has written. Only the innermost
--   batch is used, and a batch that has committed is not.
--
-- How the model stands to the source. A slice is a List, a pointer that can be nil an Option, a byte a
-- number, a uint64 a number whose wrap-around is written out, a big.Int an integer. A method that changes
-- its receiver returns the changed one. An error is `err` with the format string of the source, and an
-- index out of range is `panic`. Besides the rounds of BuildReceipt and of the Patricia tree above, the
-- loops are structural recursion but for five with fuel: the search halves its range and has the length of
-- the slice; PrefixOf climbs to the parent and EntryByDelegate goes to the book, each to a shorter path,
-- and have the length of the path; the loop that reads the entries of a receipt takes bytes with each, and
-- has one more than the length of the input; and the reference root of a list, which cuts it in two, has
-- its length.
--
-- Strings are the bytes of their UTF-8 encoding, and lower case is that of ASCII, so that URLs with other
-- letters are outside the model.
--
-- Not modelled: parsing of a URL, which is net/url's; the marshalling of the other generated types; the
-- digests and trees of signatures, which are cryptography; the executors that create accounts, write data
-- and carry anchors, the blocks that run them and the trees of records in internal/database, which all need
-- a store of accounts by URL, while the executors here take what they load as arguments and return what they
-- store; routing and error traces; the storage engines, the consensus, the API and the command lines, which
-- are libraries or input and output.
pub mod Common
pub mod Merkle
pub mod Bpt
pub mod Sorted
pub mod Url
pub mod Protocol
pub mod Chain
pub mod Encoding
pub mod Records
