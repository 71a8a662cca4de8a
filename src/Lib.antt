-- ===== src/Lib.antt =====
-- nsio: coroutines over epoll. Buffers and their pool, the event loop, and the awaiters on sockets.
--
-- A coroutine awaits an object (coio/nio_awaiter.h) that puts itself into the table of the thread's
-- loop (coio/io_loop.h) and, with a timeout, into its timers. The loop calls the object's handler for a
-- readiness event, an error or the timeout; the handler makes its system calls, and waits again or
-- resumes the coroutine. Other threads post functions to the loop. Requests travel in aligned buffers of
-- a pool (coio/byte_buffer.cpp).
--
-- Base: numbers, sequences, C's int, masks. No code of its own.
-- ByteBuffer: coio/byte_buffer.h, coio/byte_buffer.cpp. A record per struct, a function per method:
--   byte_buffer_impl is ByteBuffer, buffer_pool is BufferPool, with malloc, release and destroy, the
--   destructor of a buffer. Rounding, Key, Pool and Layout hold the proofs, and Ownership any sequence of
--   calls on a pool, as steps, with Ownership/Once. Contract has the interface of coio/byte_buffer.h as a
--   record of operations and what its users rely on, for sessions of calls: Contract/Keeps is about any
--   implementation, Contract/Kept about buffer_pool.
-- IoLoop: coio/io_loop.h. Fds has the table of descriptors (wait_fd, cancel_ev and their callers),
--   Epoll what the kernel holds of it, Synced that they agree, Watch and Watch/Refines the map of watches
--   that the table stands for; Timers has the timer heap (delay_call, cancel_delay, the inner loop and the
--   timeout of run), with its order and runs in Timers/Order, Timers/Queue and Timers/Fire; Async has the
--   functions of other threads (async, async_call, async_return, on_file_event) as one thread sees them,
--   and Wakeup the same, one shared access of any thread at a time, with Wakeup/Invariant and
--   Wakeup/Drained; Dispatch has the batches of events and the loop (run), Dispatch/Good what holds between
--   callbacks, Dispatch/Safe the assertions of a batch, Dispatch/Run the loop as a whole, Dispatch/Calls
--   what callbacks do to it, Dispatch/Local the assertions that the loop is the caller's.
-- Awaiter: coio/io_awaiter.h, coio/nio_awaiter.h, coio/nio_awaiter.cpp. Recv, Send, Request, Accept,
--   Connect and Timeout have the state and the handlers of an awaiter each. Under Request, Header and Body
--   are its two loops, Deliver and Delivered a whole request over several events, Misread headers with a
--   length that is too large or too small, Coroutine is recv_request2 and Agree compares the two. Lifetime
--   has the timers from constructor to destructor. Callbacks has the loop, the aio and the awaiters as
--   the loop calls them, Callbacks/Effects what their handlers do, Callbacks/Keeps what the loop asks of
--   them, Callbacks/Run the loop with them,
--   Callbacks/Local their thread.
-- IoContext: coio/io_context.h, coio/io_context.cpp. A loop with its thread, its aio and its pool.
--   IoContext/Local has the constructor and then run_local, with the callbacks of Awaiter/Callbacks;
--   IoContext/Stopping the thread that calls run_worker and stop, as steps beside the loop's thread.
-- Aio: coio/fd_aio.h, coio/fd_aio.cpp, coio/fio_awaiter.h. Files through Linux's aio, where
--   no callback submits again; Aio/Nested is the whole, with callbacks that submit while a batch is handed
--   on, Aio/Nested/Between the difference of two states, Aio/Nested/Conserves any callbacks, and
--   Aio/Nested/Quiet callbacks that submit nothing.
-- Zio: common/zio.h. The loops around blocking system calls; Zio/Sockets has options and
--   addresses, Zio/Whole transfers of a whole count.
-- Clock, Log and StopSignal: common/clock.h, common/log.h, common/stop_signal.h.
-- Examples: runs on concrete inputs.
--
-- Numbers are natural numbers; where the code has 32 or 16 bits, a remainder is written out. A
-- descriptor is a natural number, -1 in an entry is `none`. The counts of recv_lazy and send_lazy are
-- kept without the wrap of an int, which only a span of 2^31 bytes or more can bring; the size of a span
-- is narrowed as the code does. The id of a timer does not wrap, which C++ leaves undefined too. A
-- time is a number of nanoseconds.
--
-- What is outside the code is a parameter. A system call in a loop is the list of the kernel's
-- replies, which the handler takes one by one: `none` is a run that needs more replies. For
-- recv_lazy and send_lazy one that is not EINTR for each byte that is missing, and one more, are
-- enough. The loop over the timers takes readings of the clock in the same way; one for each timer
-- and one more are enough. Where callbacks of the aio submit again (Aio/Nested), submit runs on fuel:
-- more than there are replies of io_submit left is enough. aligned_alloc is the address it returns,
-- epoll_ctl and the calls that set up a socket are functions, strftime too, and the heap algorithms of
-- C++ a record of functions with the laws of the standard.
--
-- assert(is_local_thread()) in cancel_ev and cancel_delay logs the id that it finds in the loop; run_in of
-- IoContext ends the program where one of them is not the thread's. The other functions leave the log to
-- their callers. Among blocks with one key the pool's cache gives the latest, which the source leaves open.
--
-- The loop calls virtual functions: a callback is a number, and a function of the model says what
-- calling it does. In Awaiter/Callbacks that is the handler of an awaiter, whose state and replies are
-- given for each call, counted from the start; what the coroutine does once resumed is a parameter. What
-- a thread does to another is modelled for posted functions and for stop; in IoContext, stop and the
-- destructor are functions on the state after the thread has ended.
--
-- Not modelled: coio/task.h and coio/inet_address.*, which are copies of other projects, as
-- coio/README.md says; a coroutine is what it does to the loop between two awaits. The system calls
-- themselves, also where a function of coio/fd_aio.cpp only passes its arguments on; what printf and
-- strftime make of their arguments, and the calls of the log elsewhere. The parts of
-- coio/io_awaiter.h that the preprocessor leaves out. The programs under test, which print what they
-- measure. References that C++ keeps to an object that ends meanwhile.
pub mod Base
pub mod ByteBuffer
pub mod IoLoop
pub mod Awaiter
pub mod Aio
pub mod IoContext
pub mod Clock
pub mod Log
pub mod StopSignal
pub mod Zio
pub mod Examples
