-- ===== src/Examples/Threads.antt =====
-- stop is called before the loop has begun.
use nsio.Base.{◌≤◌, ◌⊎◌, true}
use nsio.IoContext.Stopping.{
  Threads, threads, stopping, stopped, ready, ended, Step, fulfils, returns, enters, leaves, breaks,
  joins, Reach, start, later, done, onward, IsJoined, stop_joins,
}

early : Reach (threads stopping ready true)
early = later (later (later start fulfils) (returns (λ e. cc))) breaks

stop_joins_example :
    (3 ≤ 3)
    × (IsJoined (threads stopped ended true)
        ⊎ ((u : Threads) × Step (threads stopped ended true) u))
stop_joins_example = stop_joins early (onward enters (onward leaves (onward joins done)))
