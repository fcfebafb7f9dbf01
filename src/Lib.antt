-- ===== src/Lib.antt =====
-- The core of any-sync that decides what peers may do and what they hold: the access control log of a
-- space with the state that it adds up to, the list that keeps it and the builder of its records; the
-- comparison of containers by ranges of hashes; the tree of changes of an object; the values that
-- members write under keys; the state of deletions; and the topics, patterns and message ids of
-- publish-subscribe.
--
-- The program's parts and how they interact. A space keeps an ACL list (list.go). Each raw record is
-- decoded, applied to a copy of the state (aclstate.go) and only then stored, appended and indexed.
-- Applying a record runs over its contents; each content goes through its handler, and the handler
-- first asks the content validator (validator.go), which reads the state as it is by then. The root
-- record founds the state, in the plain way or as a space of two writers (onetoone.go). Clients,
-- nodes and the object tree ask the state for roles, keys and their history. New records come from
-- the builder (aclrecordbuilder.go), which applies each to a copy of the state before it returns it.
--
-- Separately, every space has containers of elements (app/ldiff), each an id with a head. Two peers
-- compare theirs range by range of the ids' hashes: equal hashes end a range, short ranges are
-- compared element by element, and others are divided.
--
-- An object of a space is a tree of changes (commonspace/object/tree/objecttree). Changes arrive in any
-- order; one is attached when all changes before it are, and waits until then.
--
-- The members of a space write values under keys (commonspace/object/keyvalue). A row belongs to a
-- key and a peer; values of others are decoded, their signatures checked, watermarks asked of the ACL
-- state for their owner, and all set in one transaction, beside which a container holds what is
-- advertised.
--
-- A space remembers which of its objects are queued for deletion and which are deleted, in memory and
-- in the store of heads.
--
-- Topics of publish-subscribe are split into segments and checked. The patterns subscribed to stand
-- in a trie of segments, which answers what patterns match a topic; a ring of message ids drops
-- repeated messages.
--
-- Which file models which part (paths from commonspace/object/acl/list/ unless given in full):
--   Acl/Permissions        AclPermissions and its tests (models.go)
--   Acl/Model              records, contents, accounts, invites, the state (models.go, aclstate.go,
--                          commonspace/object/acl/aclrecordproto/protos/aclrecord.proto)
--   Acl/State              queries and shared updates of AclState (aclstate.go)
--   Acl/Validator          the Validate functions (validator.go); Validator/KeyChange has
--                          validateReadKeyChange, and Validator/Facts what a passed check tells
--   Acl/Apply              ApplyRecord, applyRoot, applyChangeData and applyChangeContent (aclstate.go),
--                          Build and Append (aclstatebuilder.go); its children have the apply functions
--                          of one kind each: Apply/Roles, Apply/Requests, Apply/Accounts, Apply/Keys and
--                          Apply/OneToOne (onetoone.go)
--   Acl/Policy             an access policy stated apart from records, keys and requests; its children
--                          show that the handlers keep to it and what follows
--   Acl/History            the histories of roles that PermissionsAtRecord and HadReadPermissions read
--   Acl/List               AddRawRecord, AddRawRecords, ValidateRawRecord, isContiguousChain (list.go)
--   Acl/Builder            buildReadKeyChange, buildRecords, preflightCheck and Unmarshall
--                          (aclrecordbuilder.go); Builder/Contents and Builder/Joins have the contents that
--                          are built, Builder/Batch the batches, Builder/Covers, Builder/Rotation,
--                          Builder/Reading what holds of them
--   Acl/Examples           a concrete space, and the theorems at it
--   Ldiff                  genTupleRanges and getBottomRange (app/ldiff/hashrange.go); Ldiff/Tiling and
--                          Ldiff/Bottom have the proofs
--   Ldiff/Diff             getRange, compareResults and the comparisons of elements (app/ldiff/diff.go);
--                          Diff/Reports says what they should report, Diff/Lookup, Diff/Mine, Diff/Theirs
--                          and Diff/Compare what they do, and Diff/Rounds what one answered range comes to
--   Ldiff/Exchange         the loops of Diff and CompareDiff (app/ldiff/diff.go); Exchange/Outcome says what
--                          they should report, Exchange/Pending, Exchange/Rank, Exchange/Fair and
--                          Exchange/Step follow one round, and Exchange/Correct the loop
--   Ldiff/Examples         the theorems at small containers
--   Deletion               Run, Add, Delete, Exists and Filter (commonspace/deletionstate/deletionstate.go);
--                          Deletion/Durable has the invariant, Deletion/Restart that a start makes it
--                          hold, Deletion/Examples a small space
--   KeyValue               a row, its id and its decoding (commonspace/object/keyvalue/keyvaluestorage/innerstorage/element.go),
--                          with KeyValue/Decode for what the checks let pass
--   KeyValue/Update        updateValues and applyWatermark (innerstorage/keyvaluestorage.go)
--   KeyValue/Store         Set around them, New and WatermarkTs (the same file); KeyValue/Rows is the interface of the document
--                          store, KeyValue/Runs the search by a prefix, KeyValue/Batch the induction
--                          over a batch, KeyValue/Advertised compares the container with the rows,
--                          KeyValue/Marks and KeyValue/Guarded have the watermarks, KeyValue/Changes and
--                          KeyValue/Newest what becomes of each write
--   KeyValue/Writes        SetRaw (commonspace/object/keyvalue/keyvaluestorage/storage.go) with the state of Acl;
--                          KeyValue/Examples has a document store in memory and small batches
--   Tree                   canAttachOrRemove, attach, add and AddFast
--                          (commonspace/object/tree/objecttree/tree.go); Tree/Links and Tree/Grows have
--                          what attaching keeps, Tree/Closed, Tree/Settled, Tree/Attach, Tree/Waits and
--                          Tree/Complete what stands on and waits for what, Tree/Examples a small tree
--   Pubsub                 topics and patterns (commonspace/pubsub/topic.go); Pubsub/Segments and
--                          Pubsub/Canonical have the proofs, Pubsub/Examples some topics
--   Pubsub/Trie            the trie of patterns (commonspace/pubsub/trie.go); its children show what Add and
--                          Remove change (Trie/Children, Trie/Counts, Trie/Removal, Trie/Removed), what Match finds
--                          (Trie/Matches), and compare both with a list (Trie/Subscriptions, Trie/Refines)
--   Pubsub/Dedup           the ring of seen ids (commonspace/pubsub/dedup.go), with Dedup/Members and
--                          Dedup/Queue, which compares it with a queue; Pubsub/Bags counts byte strings
--
-- How state and operations correspond to the code. A function keeps the Go name in snake case:
-- `applyRequestAccept` is `apply_request_accept`. Record ids and keys are numbers; 0 is the empty id
-- and the nil key. A map from ids or keys is an association list, and a `range` over a Go map visits
-- it in list order; where the code breaks at its first hit, that is the first of the list. The lists
-- that Go scans from the end (read key changes, option changes, the changes of an account's role)
-- stand newest first. A handler takes the state and returns the new state or an error. On an error Go
-- leaves a half-changed state behind, which its callers drop with the copy they work on; the model
-- returns no state then. A nil dereference is the error `panic`.
--
-- Cryptography and protobuf decoding are the fields of `KeyEnv` (Acl/Model), an argument of
-- everything that uses them, and what the builder needs besides, of `SignEnv` (Acl/Builder). Nothing
-- is assumed about them but where a theorem says that decoders read what encoders write. Likewise
-- what decodes a raw record and what stores one are arguments of Acl/List.
--
-- In Ldiff ids, heads and hashes are numbers, a hash of 0 being nil; the arithmetic of ranges is on
-- uint64 with its wrap-around written out. The skip list is a library, so the elements that it has in
-- a range are an argument, and so is the order of heads. In Deletion the store of heads is a
-- parameter, with the effect of an update that succeeds as a hypothesis. In KeyValue strings are
-- lists of bytes, ids of the list of members are numbers as in Acl, and a timestamp is a number; the
-- model stands for those below 2^53, since the documents keep it as a float64. A negative one is not
-- modelled. The document store is a parameter: its operations, which may fail, and as hypotheses what
-- they do to the rows. A container is the function from its ids to their heads; its hash is an
-- argument of each call. In Pubsub strings are lists of bytes, and pointers into the trie are the
-- levels and nodes themselves. In Tree a change is known by its id, and pointers to changes are ids
-- looked up in `attached`.
--
-- Two functions run on fuel. `attach` takes a change off the waiting ones before each call of itself,
-- so one more than the waiting changes is enough, which is what `add_sorted` gives it. `rounds`
-- divides every range into smaller ones, so 2^64 + 2 rounds are enough. All other recursion is
-- structural.
--
-- What is not modelled: the stores, a state without the account's keys (nothing here builds one), the
-- building of roots, listings of the state that change nothing, the locks of the list (its methods
-- run under one lock, so they are taken one after another), the tree of hash ranges that a container
-- keeps up to date, the heads, the order and the validation of an object tree, and the other parts of
-- the repository, among them the synchronisation of heads and trees over the network, the
-- publish-subscribe service, the listings and own writes of the key-value store, and the network
-- layer.
pub mod Common
pub mod Acl
pub mod Deletion
pub mod KeyValue
pub mod Ldiff
pub mod Pubsub
pub mod Tree
