-- ===== src/Lib.antt =====
-- The simple file system (PA3/a2), the distributed file system (PA3/namenode, PA3/datanode, PA3/client and the messages of PA3/common), and the disk of the first assignment (PA1/assignment01).
--
-- The file system keeps a super block, a freemap, directories and files in an image of 512-byte blocks. `Storage` is the image with its two operations on blocks (PA3/a2/ext.c). `Sfs.Layout` and `Sfs.State` are the structs of PA3/a2/fs.h and the global variables of PA3/a2/fs.c. The operations of fs.c keep their names: `Sfs.Freemap` has the allocation of blocks, `Sfs.Format` formatting and mounting, `Sfs.Directory` the directories, `Sfs.File` opening, closing, removing and listing of files, `Sfs.Cursor` the position in a file, `Sfs.Content` resizing and writing, and `Sfs.Reading` reading. The parts meet in the state `Fs`: directories and files allocate and give back blocks through `Sfs.Freemap`, and everything goes to the image through `Storage`. The child modules prove what the operations do: `Sfs.Directory.Tree` has the well-formed file systems, whose directories are a list of block numbers, and each operation on directories is stated against that list. `Sfs.Table` is what a user of the directories sees: a list of names, a command for each call and its answer. `Sfs.File.Creating` is about the file that `sfs_open` makes for a new name, `Sfs.File.Again` about opening it again, `Sfs.File.Undone` about removing it, and `Sfs.Content.Growth` about a write that enlarges a file. `Sfs.Reading.Back` puts writing, seeking and reading together, and `Sfs.Reading.Fresh` opening as well. `Sfs.Freemap.Earlier` has the one function of PA2/fs.c that does something else than that of PA3/a2/fs.c, the flush of the freemap.
--
-- `Namenode` has the tables of PA3/namenode/dfs_namenode.c, over the structs of PA3/include/common/dfs_common.h, and a function for each handler: registration of datanodes and the three requests on files. `Namenode.Nodes` is about the list of datanodes, `Namenode.Assign` about the round robin, `Namenode.Files` about the table of files, `Namenode.Receivers` and `Namenode.Update` about the two requests that change it, `Namenode.Cases` about what any request can change, and `Namenode.Spread` about the datanodes of the blocks. `Namenode.Service` is the process: its start, the thread that takes heartbeats and the loop that answers clients once safe mode has ended, as a relation with a step for each round of either; `Namenode.Service.Sound` is its invariant.
--
-- `Datanode` has the handlers of PA3/datanode/dfs_datanode.c over the block files of PA3/datanode/ext.c; what `sprintf` prints for a number is a parameter, and `Datanode.Paths.IsDecimal` is what is documented of it; which paths `fopen` gives a file to write is another, kept with each datanode. `Client` has the transfers of PA3/client/dfs_client.c over a `Cluster`: the state of the namenode, the datanodes that listen at each address and port, and their block files. A request is a call of the other side's dispatcher and the answer its result. `Client.Exchange` is a relation with a step for each message of any client or datanode, in any order. `Client.Store` is about one exchange with a datanode, `Client.Push`, `Client.Pull` and `Client.Modify` about the loops, `Client.Stored` about a file that the machines hold, `Client.Transfer` about a file that is pushed and pulled, and `Client.Uploads` about a list of them. `Bridge` is the other way to keep blocks, as files of the file system (PA3/datanode/exta2.c). `Sockets` has the loops of `send_data` and `receive_data` (PA3/common/dfs_common.c) over what each call of `send` and `recv` returns, which is a parameter, and `Sockets.Connecting` the functions that make sockets over what `socket` and `connect` return.
--
-- `Disk` has the disk of PA1/assignment01/mydisk.c, with the transfers of blocks and of bytes, and `Disk.Queue` the cache entries of PA1/assignment01/caching.c. `Disk.Blocks` is about whole blocks and `Disk.Transfer` about bytes. It stands alone: the file system of PA2 can run on a copy of it, through a bridge that is not modelled.
--
-- A call comes to an `Outcome`: `done` with its result and the state after it, `undefined` where the code leaves the bounds of an array or reads what was never set, `diverged` where a loop goes on without end, or `exited` where the process ends itself, by a failed assertion or because it cannot connect. A loop over a chain of blocks takes a number of rounds. A number larger than the length of the chain is enough, which the theorems have as a hypothesis and prove to suffice. Loops over arrays, and over the blocks of a file in the client, take the length. The search for a valid datanode takes ten rounds: after these it has seen every entry, and the loop of the code would not end. The loop in `sfs_read` over the slots of a frame takes the rounds that the loop around it has left, and does not move on at a slot that is not set. The loops over sockets take a number of calls, and the theorems say which number is enough or that none is. A local buffer that is read before it is written has the content of a field of the state, `stack`; `unreturned` is likewise the result of a function that ends without one.
--
-- A block is a function from the index of a 32-bit word to its value, so equality of blocks is that of all words. Numbers are natural numbers with the wrap-around of `u32` written out. The offset of a block in the image is computed on `u32` as in the code. A read of the host's `fread` at the end of a file fills as much of the buffer as there is, as glibc does.
--
-- Not modelled: printing, the opening and closing of files of the host beyond whether they exist, the creation of threads, the accept loop of the datanode, what the namenode's two threads do to shared variables in the midst of each other's rounds, the choice of an operation by number in the client and in PA3/test.c, and the functions under PA2 that are copies of those above.
pub mod Common
pub mod Storage
pub mod Disk
pub mod Sockets
pub mod Datanode
pub mod Client
pub mod Sfs
pub mod Namenode
pub mod Bridge
