-- ===== src/Examples/Files.antt =====
-- A read of a file whose submission meets a full queue, also where a callback submits meanwhile.
use nsio.Base.{◌≡◌, refl, true, false, List, [], ◌∷◌, ◌++◌, map, arith}
use nsio.Base.Int.{pos, negsuc}
use nsio.Aio.{IoEvent, Iocb, IoAio, Fetched, events, fetch_failed, taken, not_taken, refused}
use nsio.Aio
use nsio.Aio.Nested.{
  Running, returned, submit_all, deliver, fetch, submit_loop, submit, on_file_event,
}
use nsio.Aio.Nested.Between.{Between, Ends}
use nsio.Aio.Nested.Conserves.{nested_calls_end}
use nsio.Aio.Nested.Quiet.{full, submit_returns}

abbrev read_block : Iocb
read_block = record {
  aio_data = 7;
  aio_lio_opcode = 0;
  aio_fildes = 5;
  aio_offset = 0;
  aio_buf = 4096;
  aio_nbytes = 512;
  aio_flags = 1;
  aio_resfd = 6;
}

abbrev idle_aio : IoAio
idle_aio = record { efd = 6; req = 2; res = 0; submitted = [] }

abbrev finished : IoEvent
finished = record { data_id = 9; res = pos 512; res2 = pos 0 }

abbrev batches : List (IoEvent × List IoEvent)
batches = (finished, finished ∷ []) ∷ (finished, []) ∷ []

-- The queue is full for the first block; while events are collected for it, that of the coroutine is
-- taken at the second try.
abbrev full_once : Running
full_once = record {
  aio = idle_aio;
  submits = refused 11 ∷ not_taken ∷ taken ∷ taken ∷ [];
  fetches = fetch_failed 4 ∷ events (finished ∷ finished ∷ []) ∷ [];
  called = [];
  asked = [];
}

abbrev quiet : List IoEvent → List Iocb
quiet called = []

-- The queue is full, a signal interrupts, and then the block is taken.
abbrev busy : Running
busy = record full_once {
  submits = map refused (11 ∷ 4 ∷ []) ++ taken ∷ [];
  fetches = full batches;
}

submit_returns_example :
    (t : Running) × (submit quiet 4 read_block busy ≡ returned t)
    × (t.asked ≡ read_block ∷ [])
    × Between [] 0 busy t
submit_returns_example =
    submit_returns quiet (λ called. refl) 4 read_block (11 ∷ 4 ∷ []) batches [] busy refl refl
      (omega arith) (omega arith)

-- The coroutine that the first event resumes submits one block more.
abbrev asks_once : List IoEvent → List Iocb
asks_once (e ∷ []) = record read_block { aio_data = 8 } ∷ []
asks_once es = []

nested_calls_end_example :
    ((b : Iocb) → Ends [] 0 full_once (submit asks_once 5 b full_once))
    × Ends [] 0 full_once (on_file_event asks_once 5 full_once)
nested_calls_end_example = nested_calls_end asks_once 5 full_once (omega arith)

-- Both blocks are taken, in the order of the kernel's replies.
full_once_blocks :
    submit asks_once 5 read_block full_once
    ≡ returned (record full_once {
      aio = record idle_aio {
        req = 4;
        res = 2;
        submitted = read_block ∷ record read_block { aio_data = 8 } ∷ [];
      };
      submits = [];
      fetches = [];
      called = finished ∷ finished ∷ [];
      asked = record read_block { aio_data = 8 } ∷ read_block ∷ [];
    })
unfolding submit submit_loop fetch deliver submit_all
full_once_blocks = refl

-- The eventfd of the constructor is closed; where io_setup fails, there is nothing to close.
ends_what_it_made :
    (Aio.end_aio (Aio.new_inst (pos 0) 6) ≡ (true, 6 ∷ []))
    × (Aio.end_aio (Aio.new_inst (negsuc 0) 6) ≡ (false, []))
unfolding Aio.end_aio Aio.new_inst
ends_what_it_made = (refl, refl)
