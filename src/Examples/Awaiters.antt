-- ===== src/Examples/Awaiters.antt =====
-- Sockets with a few replies.
use mathlib.Core.List.{Perm}
use nsio.Base.{
  ◌+◌, ◌≡◌, refl, inl, inr, true, false, List, [], ◌∷◌, ◌++◌, map, some, arith, length, replicate,
}
use nsio.Base.Int.{pos, negsuc}
use nsio.Awaiter.{Received, Effect, got, failed, arm_read, set_errno, resume}
use nsio.Awaiter.Recv.{RecvLazy}
use nsio.Awaiter.Recv as Recv
use nsio.Awaiter.Recv.Outcome as RecvOutcome
use nsio.Awaiter.Recv.Assembly.{serve, received, recv_assembles}
use nsio.Awaiter.Send.{SendLazy, sent}
use nsio.Awaiter.Send as Send
use nsio.Awaiter.Accept as Accept
use nsio.Awaiter.Accept.{accepted, accepts_all, accept_error_repeats}
use nsio.Awaiter.Lifetime.{
  new_recv_lazy, new_send_lazy, end_timeout, recv_timer_balanced, send_timer_left,
}
use nsio.Examples.Heap.{sorted_vector}
use nsio.Examples.Loop.{succeeds, bare, bare-IsTimed}

abbrev reader : RecvLazy
reader = record {
  result = negsuc 0;
  timer_id = negsuc 0;
  is_timeout = 0;
  recved_bytes = 0;
  sockfd = 4;
  flags = 0;
  buff = 0 ∷ 0 ∷ 0 ∷ [];
}

abbrev writer : SendLazy
writer = record {
  result = negsuc 0;
  timer_id = negsuc 0;
  is_timeout = 0;
  sended_bytes = 0;
  sockfd = 4;
  flags = 0;
  buff = 1 ∷ 2 ∷ 3 ∷ [];
}

recv_assembles_example :
    (s' : RecvLazy) × (serve 5 (got (7 ∷ []) ∷ failed 11 ∷ failed 4 ∷ got (8 ∷ 9 ∷ []) ∷ []) reader
      ≡ some (s', resume (pos (length reader.buff)) ∷ []))
    × (s'.buff ≡ received (got (7 ∷ []) ∷ failed 11 ∷ failed 4 ∷ got (8 ∷ 9 ∷ []) ∷ []))
recv_assembles_example =
    recv_assembles 5 (got (7 ∷ []) ∷ failed 11 ∷ failed 4 ∷ got (8 ∷ 9 ∷ []) ∷ []) reader refl
      (omega arith) refl (inl refl, (inr refl, tt)) (omega arith)

abbrev reads : List Received
reads = got (7 ∷ []) ∷ failed 4 ∷ got (8 ∷ []) ∷ got (9 ∷ []) ∷ got [] ∷ []

recv_ends_example :
    (r : Recv.RecvLazy × List Effect × List Received) × (Recv.on_file_event (pos 1) reads reader
      ≡ some r)
    × RecvOutcome.Outcome (negsuc 0) (some r)
recv_ends_example = RecvOutcome.recv_ends (pos 1) reads reader refl (omega arith) (omega arith)

abbrev writes : List Send.Sent
writes = sent 1 ∷ sent 1 ∷ Send.failed 4 ∷ sent 1 ∷ sent 0 ∷ []

send_ends_example :
    (r : Send.SendLazy × List Effect × List Send.Sent) × (Send.on_file_event (pos 2) writes writer
      ≡ some r)
    × Send.Outcome writer (some r)
send_ends_example = Send.send_ends (pos 2) writes writer refl (omega arith) (omega arith)

abbrev listener : Accept.Accept
listener = record { result = negsuc 0; serv_fd = 3 }

accepts_all_example :
    ((Accept.on_file_event
        ((Accept.connected 5 ∷ Accept.failed 4 ∷ Accept.connected 6 ∷ []) ++ Accept.failed 11 ∷ [])
        listener).0
      ≡ map
          (λ fd. resume (pos fd))
          (accepted (Accept.connected 5 ∷ Accept.failed 4 ∷ Accept.connected 6 ∷ []))
        ++ arm_read ∷ set_errno 0 ∷ [])
    × ((Accept.on_file_event
          ((Accept.connected 5 ∷ Accept.failed 4 ∷ Accept.connected 6 ∷ [])
            ++ Accept.failed 11 ∷ [])
          listener).2
        ≡ true)
accepts_all_example =
    accepts_all (Accept.connected 5 ∷ Accept.failed 4 ∷ Accept.connected 6 ∷ []) 11 listener
      (refl, tt) (inl refl)

accept_error_repeats_example :
    ((Accept.on_file_event (replicate 3 (Accept.failed 24)) listener).0
      ≡ replicate 3 (resume (negsuc 0)))
    × ((Accept.on_file_event (replicate 3 (Accept.failed 24)) listener).2 ≡ false)
accept_error_repeats_example =
    accept_error_repeats 3 24 listener (omega arith) (omega arith) (omega arith)

recv_timer_balanced_example :
    let r = new_recv_lazy sorted_vector succeeds (some 1000) 10 4 (0 ∷ 0 ∷ []) 0 7 bare in
    Perm (end_timeout sorted_vector r.0.timer_id r.1).timer bare.timer
recv_timer_balanced_example =
    recv_timer_balanced sorted_vector succeeds (some 1000) 10 4 (0 ∷ 0 ∷ []) 0 7 bare bare-IsTimed

send_timer_left_example :
    let r = new_send_lazy sorted_vector succeeds (some 1000) 10 11 4 (1 ∷ 2 ∷ []) 0 7 bare in
    Perm
      (end_timeout sorted_vector r.0.timer_id r.1).timer
      (record { id = bare.g_timer_id + 1; when = 10 + 1000; func = 7 } ∷ bare.timer)
send_timer_left_example =
    send_timer_left sorted_vector succeeds 1000 10 11 4 (1 ∷ 2 ∷ []) 0 7 bare bare-IsTimed
