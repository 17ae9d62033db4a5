-- ===== src/Lib.antt =====
-- Mich Core is a capability kernel: kernel objects are reached through handles, drivers and the
-- network stack run over shared descriptor rings, and POSIX calls are served on top. This library
-- models the parts that carry that logic, each as a state record and one function per C function,
-- and proves what makes them correct.
--
-- The parts and their files (paths from the root of the repository):
--   Core/Pmm        src/core/pmm.c: the physical page allocator, its reservations and references.
--   Core/Klock      src/core/klock.c, spinlock.h: ticket locks that are taken in the order of levels.
--   Block/Cache     src/block/cache.c: the write-back cache of device pages.
--   Process/Task    src/process/task.h: the task states that handles and pipes read.
--   Process/Pipe    src/process/posix_pipe.c: the byte rings, parked tasks and wakes.
--   Objects/Object  src/objects/object.c: the object pool, reference counts and handle tables.
--   Objects/Ring    src/objects/ring.c: descriptor rings over shared pages. A ring is an object of
--                   Objects/Object, made by `object_create` there.
--   Net/Route       src/net/route.c: the routing table, longest prefix first.
--   Net/Pmtu        src/net/pmtu.c: the path MTU cache.
--   Net/TcpCc       src/net/tcp_cc.c: Reno and BBR congestion control.
--   Net/Arp         src/net/arp.c: the neighbour cache, requests, replies and their limits.
--   Net/PacketPool  src/net/net_buffer.c: the buffers of one packet pool and their ids.
--   Base            no file of the kernel: names passed on, lists as C arrays, words, bit masks.
--
-- Correspondence. A module declares the C names in snake_case: `handle_duplicate` is the C function
-- of that name, a record has the fields of the C struct, and static arrays are the fields of one
-- state record. A pointer into a static array is its index, and a function that changes state
-- returns the new state. A result that is an errno or -1 is a Boolean, an Option or a data type.
-- Words keep their width: `add32`, `sub32` and `mul32` reduce modulo 2 ^ 32. The null checks on
-- context pointers have no counterpart.
--
-- Bounds and fuel. Loops over arrays are recursion on the number of entries left. `revoke_loop` of
-- Objects/Object has one unit of fuel more than there are handle slots, and each pass clears a
-- slot. `leading_ones` of Net/Route has 33, one more than a netmask has bits. The scans of
-- Core/Pmm and of Process/Pipe recurse on the number of pages or tasks left. The transfers of
-- Block/Cache have as many passes as sectors, since each pass moves one at least, and its
-- invalidation has the passes for the fuel as an argument, with `none` where it does not end.
--
-- Contracts. The block cache is stated against the contents of all devices: `Refines` of
-- Block/Cache/Refines relates the cache to contents by device and sector. The locks are a relation
-- of the steps of all CPUs, in any order, from `klock_start`. A CPU that waits only spins, and it
-- releases the lock that it acquired last. Which lock a record stands for is kept in the model only.
--
-- Parameters. Destroy callbacks (`run_destroy` in Objects/Object) are a parameter. The theorems
-- about releases assume `IsDestroyer`: a callback touches no handle table, it may give up
-- references from outside, which its object held, so long as those that the other objects hold
-- (`Held`, a parameter too) are left, and every count stays exact for the references that are
-- left. `handle_revoke_object` calls the revocation of file descriptors, assumed to leave exact
-- counts. The page resources behind a ring are the record `PageResources`. The copies to and from
-- user space and the choice of the next task are the record `UserSpace` of Process/Pipe, where a
-- copy from user space is assumed to answer as many bytes as it was asked for. `block_io` and
-- `block_info` are the record `BlockDevice` of Block/Cache, and `IsDevice` says what the theorems
-- assume: a write that succeeds is read back, a write that fails may change its own sector only, a
-- read changes no contents. The functions that ARP calls to transmit and to tell of a neighbour
-- are arguments of Net/Arp/Handler.
--
-- Not modelled: the calls of the locks in the other parts, which make each operation atomic; output
-- on the serial line; the rest of src/net, src/objects, src/process, src/block,
-- src/driver, src/fs and src/crypto; and src/arch/x86_64, which is hardware access and dispatch.
pub mod Base
pub mod Core
pub mod Block
pub mod Process
pub mod Objects
pub mod Net
