-- ===== src/Lib.antt =====
-- Verification of archoncloud-go: a client and a storage provider for files that are cut into shards.
--
-- A file is wrapped in a container (shards/filecontainer.go), which is signed and hashed; the container
-- is cut into shards by an erasure code (shards/aors.go, bors.go, bomxor.go over reedSolomon.go and
-- mxor.go); each shard gets a header of one of three kinds (shards/*ShardHeader.go) and goes to a
-- storage provider with a parity share, a CRC and a signature (WriteShardContainer in
-- shards/shardscontainer.go). The provider checks and stores it (StoreSPShard, called by uploadShard in
-- storageProvider/uploadHandler.go). A downloader reads the stored bytes (NewShardFromSP), decodes the
-- container from enough shards and takes the file out of it (GetOriginalDataFromContainer).
--
-- The files of this library and the code:
--   Base/          tests and lists over the native numbers, the integers `int` and `int64` with their
--                  wrap-around (Int), rounding (Arith), the results ok, err and panic (Errors).
--   Common/Bytes   common/utils.go: readers, big-endian numbers, CRC-32, padding of slices.
--   Common/Numbers common/utils.go: RoundUp, DivideRoundUp, MegaBytes, Max, Min, EraseInt.
--   Common/Hash    common/hash.go, types.go: HashingWriter, hashes and signatures from text.
--   Shards/Types   the codes of erasure codes and containers.
--   Shards/Erasure shards/reedSolomon.go. Shards/Sizes: GetShardDataLen and GetShardTotalLen.
--   Shards/MxorHeader, BorsHeader, AorsHeader: the three headers; Shards/Header: the interface
--                  ShardHeader as their sum, and NewShardHeader.
--   Shards/Shard   the shard on the wire: WriteShardContainer, StoreSPShard, NewShardFromSP.
--   Shards/FileContainer: CreateContainerBytes, PayLoadEnd, GetOriginalDataFromContainer.
--   Shards/Mxor    shards/mxor.go. Shards/Container: ShardsContainer, its encoders and decoders.
--   Common/Profiles common/spprofile.go: URLs, profiles of storage providers and lists of them.
--   Common/ArchonUrl common/archonurl.go: the URL, its text, the paths of shards; Parse: NewArchonUrl.
--   Common/Lines   common/utils.go: NumLines and WriteLastLines.
--   Common/Names   common/utils.go: IsLegalFilePath and IsLegalUserName.
--   Upload/Sharded upload/sharded.go: uploadNeededShards, getShardUploads and postShard; its children
--                  say what one post, one round and the whole loop do.
--   Upload/Choosing upload/storageProviders.go: GetUploadSps, with SortByMinAsk and PickRandom of
--                  common/spprofile.go and RandomRange of common/random.go.
--   Download/Sharded download/download.go: downloadSharded and getUrlMap; Recover/File puts the whole way of
--                  a file together, from its encoding to its download.
--   BlockchainApi/Neo blockchainAPI/neo/neoSpProfile.go and uploadParamsForNeo.go: the texts that the Neo
--                  contract stores, over common/compress.go; its child Responses is what
--                  blockchainAPI/neo/utils.go reads from the log of a transaction.
--   StorageProvider/Files, Paths: the files as paths and contents, and the paths of stored files in
--                  storageProvider/account.go.
--   StorageProvider/UploadHandler storageProvider/uploadHandler.go: uploadShard and getShardFile; its
--                  children WholeFile (uploadWholeFile) and Handler (uploadHandler, getFileName).
--   StorageProvider/Pending storageProvider/pendingUpload.go: the pending uploads and their verification.
--   StorageProvider/Download storageProvider/download.go: downloadHandler.
--   StorageProvider/System: the handlers and the loop together, as a step relation.
--   Tests/         concrete instances of the parameters, and the theorems on concrete inputs.
--
-- A function keeps its Go name in snake case. A function that returns an error gives a Result, whose
-- third case is a panic: an index out of range, a division by zero, or one that the code raises. A slice
-- is a list, a nil shard is `none`, a reader is the list of the bytes that are left, and a writer is the
-- list of the bytes that it was given.
--
-- Parameters: the package github.com/vivint/infectious (IsErasureCode and IsRecoverable state what it
-- documents), the hash SHA3-256, the account's Sign (a signature has 65 bytes), base58, and the C
-- library of the mxor codec. Nothing is assumed of the hash but the length of its results. For URLs,
-- url.Parse (IsParse). For the texts of Neo, the package gzip. For a download, what the array of a slice
-- has behind its length. For the provider also the folder of the executable, filepath.Join (IsJoin), the
-- request's form, whether files can be created, what the block chains say at a time, and whether an
-- announcement to the distributed hash table succeeds.
--
-- The provider's handlers run in parallel with the loop over the pending uploads. System takes one
-- request, one send to the channel, one upload received from it and one pass of the timer as the steps
-- of a relation, in any order; a request whose file is stored waits until the channel has room. A step
-- inside a handler does not interleave with another one.
--
-- The uploads of a round run in parallel: the post of a request and the order in which the answers come
-- through the channel are parameters too (IsChannel states what is assumed of it). So are the order of a
-- download's answers and that of the range over the map of shards, any permutation; sort.Slice
-- (IsSort) and the random numbers that are drawn.
--
-- Bounds: the loops recurse on a list or a count, but for the upload loop, which has fuel: each round
-- takes at least one shard or one provider off its lists, so one more than their number is enough.
-- RandomRange draws numbers until enough are distinct: it recurses on the numbers drawn, and its theorem
-- asks that as many distinct ones are among them.
-- Files are taken below 2^61 bytes, so that `int64` sizes of a container and of its padding do not wrap,
-- and the number of shards at most 255, which is what the header of a browser-optimised shard can hold.
--
-- Not modelled: HTTP clients and routing, the download of whole files, the file system but for the files of
-- the provider, configuration, wallets, the block chains and their contracts, logging. Failing disks
-- and networks appear only as the bytes that are missing, as failed posts, and as files that cannot be
-- created.
pub mod Base
pub mod Common
pub mod Shards
pub mod Tests
pub mod Upload
pub mod Download
pub mod StorageProvider
pub mod BlockchainApi
