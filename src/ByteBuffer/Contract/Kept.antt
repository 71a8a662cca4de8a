-- ===== src/ByteBuffer/Contract/Kept.antt =====
-- coio/byte_buffer.cpp under the contract of coio/byte_buffer.h.
use native.Mathlib.Nat.{pow-le-pow_right}
use nsio.Base.{ℕ, ◌%◌, ◌^◌, ◌≤◌, ◌<◌, ◌≡◌, refl, ap, ◌∙◌, List, [], ◌∷◌, arith, All}
use nsio.ByteBuffer.{
  ByteBuffer, BufferPool, u32, new_inst, get_cached_bytes, malloc, destroy, base, body, data_of,
  align, capacity, body_off, set_data_offset, set_data_begin, set_data_len, header_size,
}
use nsio.ByteBuffer.Key.{IsBlock}
use nsio.ByteBuffer.Pool.{
  IsValid, IsRequest, malloc-Served, destroy-IsValid, header_fits, body_fits, total,
}
use nsio.ByteBuffer.Layout.{IsLaidOut, malloc-IsLaidOut}
use nsio.ByteBuffer.Contract.{
  BytePool, Order, Call, allocate, offset, begin_at, len, give_back, IsPromised, Contract, session,
}
use nsio.ByteBuffer.Contract.Keeps.{IsServable, session_keeps}

-- struct buffer_pool and struct byte_buffer_impl
abbrev pub buffer_pool : BytePool BufferPool ByteBuffer
buffer_pool = record {
  malloc = malloc;
  get_cached_bytes = get_cached_bytes;
  end_buffer = destroy;
  base = base;
  body = body;
  data_of = data_of;
  align = align;
  capacity = capacity;
  body_off = body_off;
  data_len = λ b. b.data_len;
  set_data_offset = set_data_offset;
  set_data_begin = set_data_begin;
  set_data_len = set_data_len;
}

-- An order whose sums and units fit, with an aligned address, and a header that 16 bits hold.
pub record IsFitting (q : Order) : Type 0 where
  pub request : IsRequest q.body_len q.align_bit q.header_len
  pub placed : q.at % 2 ^ q.align_bit ≡ 0
  pub narrow : header_size q.header_len q.align_bit < 2 ^ 16

-- A buffer with the layout of its order, on a block of the pool.
record IsLent (q : Order) (b : ByteBuffer) : Type 0 where
  laid_out : IsLaidOut q.body_len q.align_bit q.header_len b
  block : IsBlock b.m_d
  unit : b.m_d.m_align_bit ≡ q.align_bit
  short : b.m_d.m_len < 2 ^ 32

malloc-IsLent :
    (p : BufferPool) (q : Order)
    → IsValid p
    → IsFitting q
    → IsLent q (malloc p q.body_len q.align_bit q.header_len q.at).0
      × IsValid (malloc p q.body_len q.align_bit q.header_len q.at).1
unfolding capacity
malloc-IsLent p q v f =
    let s = malloc-Served p q.body_len q.align_bit q.header_len q.at v f.request f.placed in
    let h = header_fits q.body_len q.align_bit q.header_len f.request in
    let b = body_fits q.body_len q.align_bit q.header_len f.request in
    (
      record {
        laid_out =
            malloc-IsLaidOut p q.body_len q.align_bit q.header_len q.at v f.request f.placed
              f.narrow;
        block = s.block;
        unit = s.unit;
        short = omega (arith, s.size, h.tight, b.tight, f.request.room);
      },
      s.valid,
    )

-- The setters leave the block and the offset of the body alone.
same_block :
    (q : Order) (b : ByteBuffer) (begin n : ℕ)
    → IsLent q b
    → IsLent q (record b { data_begin = begin; data_len = n })
unfolding base body body_off capacity
same_block q b begin n l = record {
  laid_out = record {
    header_room = l.laid_out.header_room;
    body_room = l.laid_out.body_room;
    base_aligned = l.laid_out.base_aligned;
    body_aligned = l.laid_out.body_aligned;
  };
  block = l.block;
  unit = l.unit;
  short = l.short;
}

promised : (q : Order) (b : ByteBuffer) → IsLent q b → IsPromised buffer_pool q b
unfolding align base body body_off
promised q b l = record {
  header_room = l.laid_out.header_room;
  body_room = l.laid_out.body_room;
  base_aligned = l.laid_out.base_aligned;
  body_aligned = l.laid_out.body_aligned;
  body_at = refl;
  unit =
      let small : 2 ^ b.m_d.m_align_bit ≤ 2 ^ 31 =
        pow-le-pow_right {n = 2} (omega arith) {j = 31} (omega (arith, l.block.shift)) in
      let whole : u32 (2 ^ b.m_d.m_align_bit) ≡ 2 ^ b.m_d.m_align_bit = omega (arith, small) in
      whole ∙ ap (λ (k : ℕ). 2 ^ k) l.unit;
}

pub buffer_pool-Contract : Contract buffer_pool
unfolding set_data_offset set_data_begin set_data_len
buffer_pool-Contract = record {
  CanServe = IsFitting;
  IsSound = IsValid;
  IsLent = IsLent;
  malloc-IsSound = malloc-IsLent;
  end_buffer-IsSound = λ p q b v l. destroy-IsValid p b v l.block l.short;
  set_data_offset-IsLent = λ q b at n l. same_block q b _ _ l;
  set_data_begin-IsLent = λ q b at l. same_block q b _ _ l;
  set_data_len-IsLent = λ q b n l. same_block q b _ _ l;
  promise = promised;
}

-- The orders in a session are such.
abbrev pub AsksFitting : Call → Type 0
AsksFitting (allocate q) = IsFitting q
AsksFitting (offset i at n) = Unit {0}
AsksFitting (begin_at i at) = Unit {0}
AsksFitting (len i n) = Unit {0}
AsksFitting (give_back i) = Unit {0}

servable :
    (calls : List Call)
    → All AsksFitting calls
    → All (IsServable buffer_pool buffer_pool-Contract) calls
unfolding buffer_pool-Contract
servable [] can = tt
servable (allocate q ∷ calls) can = (can.0, servable calls can.1)
servable (offset i at n ∷ calls) can = (tt, servable calls can.1)
servable (begin_at i at ∷ calls) can = (tt, servable calls can.1)
servable (len i n ∷ calls) can = (tt, servable calls can.1)
servable (give_back i ∷ calls) can = (tt, servable calls can.1)

-- Take any sequence of calls on a new pool, of malloc, of the setters of the buffers held and of
-- their destructor, where the sums and units of each order fit, its rounded header is below 2^16
-- and its address from aligned_alloc is aligned. Then every buffer held at the end, recycled or
-- fresh, meets what byte_buffer_pool promises for its own order: room for the header before the
-- body and for the body within the capacity, a base and a body that are aligned, a body that starts
-- body_off after the base, and the alignment that was asked for. And every block in the cache
-- stands under its own key, and the counter is the sum of the cached lengths in 64 bits.
pub sessions_keep_promises :
    (limit : ℕ) (calls : List Call)
    → All AsksFitting calls
    → (let s = session buffer_pool calls (record { pool = new_inst limit; held = [] }) in
        All (λ (h : Order × ByteBuffer). IsPromised buffer_pool h.0 h.1) s.held × IsValid s.pool)
unfolding new_inst total buffer_pool-Contract
sessions_keep_promises limit calls can =
    session_keeps buffer_pool buffer_pool-Contract calls (new_inst limit) (servable calls can)
      (record { entries = tt; counted = refl })
