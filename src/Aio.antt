-- ===== src/Aio.antt =====
-- coio/fd_aio.h, coio/fd_aio.cpp and coio/fio_awaiter.h: reads and writes of files through Linux's aio.
-- A callback is the number of its object. The kernel's replies to io_submit and io_getevents are lists;
-- `none` where they run out. A virtual on_aio_event is listed by its event. Nested: callbacks that
-- submit again.
pub mod Nested
use nsio.Base.{
  ℕ, zero, suc, ◌+◌, ◌^◌, ◌%◌, Bool, true, false, List, [], ◌∷◌, ◌++◌, Option, none, some, ◌==◌,
  if◌then◌else◌, length,
}
use nsio.Base.Int.{ℤ, pos, negsuc, neg_part}
use nsio.ByteBuffer.{ByteBuffer, u64, data_of, set_data_begin, set_data_len}

-- struct io_event: aio_data is the callback.
pub record IoEvent : Type 0 where
  pub data_id : ℕ
  pub res : ℤ
  pub res2 : ℤ

-- struct iocb, as far as set_iocb sets it; the opcode is 0 for IOCB_CMD_PREAD and 1 for IOCB_CMD_PWRITE.
pub record Iocb : Type 0 where
  pub aio_data : ℕ
  pub aio_lio_opcode : ℕ
  pub aio_fildes : ℕ
  pub aio_offset : ℕ
  pub aio_buf : ℕ
  pub aio_nbytes : ℕ
  pub aio_flags : ℕ
  pub aio_resfd : ℕ

-- struct io_aio_impl. `submitted` lists the control blocks that the kernel took, latest first.
pub record IoAio : Type 0 where
  pub efd : ℕ
  pub req : ℕ
  pub res : ℕ
  pub submitted : List Iocb

-- io_aio_impl::io_aio_impl, which io_aio::new_inst calls, by what io_setup and eventfd return; `none`
-- is an object that io_setup left without a descriptor.
unfoldable pub new_inst : ℤ → ℕ → Option IoAio
new_inst (pos zero) eventfd = some (record { efd = eventfd; req = 0; res = 0; submitted = [] })
new_inst (pos (suc n)) eventfd = none
new_inst (negsuc n) eventfd = none

-- io_aio_impl::~io_aio_impl: whether it destroys a context, and the descriptors that it closes.
unfoldable pub end_aio : Option IoAio → Bool × List ℕ
end_aio none = (false, [])
end_aio (some a) = (true, a.efd ∷ [])

-- What io_getevents returns: events, or -1 with errno.
pub data Fetched : Type 0 where
  events : List IoEvent → Fetched
  fetch_failed : ℕ → Fetched

-- What io_submit returns for one control block: 1, 0, or -1 with errno.
pub data Submitted : Type 0 where
  taken : Submitted
  not_taken : Submitted
  refused : ℕ → Submitted

-- EAGAIN
abbrev pub again : ℕ
again = 11

-- io_aio_impl::fetch_events, where no callback that it calls submits again (Nested.fetch is the whole of
-- it); every error makes another turn.
unfoldable pub fetch_events : List Fetched → IoAio → Option (IoAio × List IoEvent × List Fetched)
fetch_events [] a = none
fetch_events (events [] ∷ rest) a = fetch_events rest a
fetch_events (events (e ∷ es) ∷ rest) a =
    some (record a { res = u64 (a.res + length (e ∷ es)) }, e ∷ es, rest)
fetch_events (fetch_failed errno ∷ rest) a = fetch_events rest a

-- io_aio_impl::submit, where no callback submits again (Nested.submit is the whole of it); every error but EAGAIN makes another turn at once.
unfoldable pub submit :
    Iocb → List Submitted → List Fetched → IoAio → Option (IoAio × List IoEvent × List Fetched)
unfolding fetch_events
submit b [] fetches a = none
submit b (taken ∷ rest) fetches a =
    some (record a { req = u64 (a.req + 1); submitted = b ∷ a.submitted }, [], fetches)
submit b (not_taken ∷ rest) fetches a = submit b rest fetches a
submit b (refused errno ∷ rest) fetches a = elim (errno == again) [
  | false ↦ submit b rest fetches a
  | true ↦ elim (fetch_events fetches a) [
    | none ↦ none
    | some (a₁, first, left) ↦ elim (submit b rest left a₁) [
      | none ↦ none
      | some (a₂, later, end) ↦ some (a₂, first ++ later, end)
    ]
  ]
]

-- io_aio_impl::on_file_event, which then waits to read again
unfoldable pub on_event_fd : List Fetched → IoAio → Option (IoAio × List IoEvent × List Fetched)
unfolding fetch_events
on_event_fd fetches a = fetch_events fetches a

-- io_aio_impl::set_iocb
unfoldable pub set_iocb : ℕ → Bool → ℕ → ℕ → ℕ → ℕ → ℕ → Iocb
set_iocb fd is_write off buff len efd icb = record {
  aio_data = icb;
  aio_lio_opcode = if is_write then 1 else 0;
  aio_fildes = fd;
  aio_offset = off;
  aio_buf = buff;
  aio_nbytes = len;
  aio_flags = 1;
  aio_resfd = efd;
}

-- io_aio_impl::aio_read
unfoldable pub aio_read :
    ℕ
    → ℕ
    → ℕ
    → ByteBuffer
    → ℕ
    → List Submitted
    → List Fetched
    → IoAio
    → Option (ByteBuffer × IoAio × List IoEvent × List Fetched)
unfolding submit set_iocb data_of set_data_begin set_data_len
aio_read fd offset count buff icb submits fetches a =
    let b = set_data_len (count % 2 ^ 32) (set_data_begin 0 buff) in
    elim (submit (set_iocb fd false offset (data_of b) count a.efd icb) submits fetches a) [
      | none ↦ none
      | some (a₁, called, rest) ↦ some (b, a₁, called, rest)
    ]

-- io_aio_impl::aio_write
unfoldable pub aio_write :
    ℕ
    → ℕ
    → ByteBuffer
    → ℕ
    → List Submitted
    → List Fetched
    → IoAio
    → Option (IoAio × List IoEvent × List Fetched)
unfolding submit set_iocb data_of
aio_write fd offset buff icb submits fetches a =
    submit (set_iocb fd true offset (data_of buff) buff.data_len a.efd icb) submits fetches a

-- aio_block_rw::on_aio_event: the result that the coroutine is resumed with, and errno where it is set.
unfoldable pub on_aio_event : IoEvent → ℤ → ℤ × Option ℤ
on_aio_event e result = elim e.res2 [ negsuc n ↦ (result, some e.res) | pos n ↦ (e.res, none) ]
