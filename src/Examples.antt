-- ===== src/Examples.antt =====
-- Runs of the model on concrete inputs, with a sorted vector in the place of the C++ heap.
mod Heap
mod Buffers
mod Loop
mod Requests
mod Wakeup
mod Watch
mod Run
mod Threads
mod Coroutines
mod Ownership
mod Sockets
mod Files
mod Awaiters
