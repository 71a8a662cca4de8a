-- ===== src/ByteBuffer/Contract.antt =====
-- coio/byte_buffer.h: what a user of buffers sees of them and of their pool, and what it relies on. A
-- session is any sequence of calls by one user. Keeps: sessions with any pool; Kept: with buffer_pool.
pub mod Keeps
pub mod Kept
use nsio.Base.{ℕ, zero, suc, ◌+◌, ◌%◌, ◌^◌, ◌≤◌, ◌≡◌, List, [], ◌∷◌, Option, none, some}

-- struct byte_buffer_pool and struct byte_buffer. malloc takes body_len, align_bit, header_len and what
-- aligned_alloc returns where it is called; end_buffer is ~byte_buffer, which gives the block back.
pub record BytePool (Pool Buffer : Type 0) : Type 0 where
  pub malloc : Pool → ℕ → ℕ → ℕ → ℕ → Buffer × Pool
  pub get_cached_bytes : Pool → ℕ
  pub end_buffer : Pool → Buffer → Pool
  pub base : Buffer → ℕ
  pub body : Buffer → ℕ
  pub data_of : Buffer → ℕ
  pub align : Buffer → ℕ
  pub capacity : Buffer → ℕ
  pub body_off : Buffer → ℕ
  pub data_len : Buffer → ℕ
  pub set_data_offset : ℕ → ℕ → Buffer → Buffer
  pub set_data_begin : ℕ → Buffer → Buffer
  pub set_data_len : ℕ → Buffer → Buffer

-- The arguments of a malloc, and the address for it.
pub record Order : Type 0 where
  pub body_len : ℕ
  pub align_bit : ℕ
  pub header_len : ℕ
  pub at : ℕ

-- A call; a buffer is named by its place among those held, latest first.
pub data Call : Type 0 where
  allocate : Order → Call
  offset : (i at n : ℕ) → Call
  begin_at : (i at : ℕ) → Call
  len : (i n : ℕ) → Call
  give_back : (i : ℕ) → Call

-- The pool, and the buffers held with what was ordered.
pub record Session (Pool Buffer : Type 0) : Type 0 where
  pub pool : Pool
  pub held : List (Order × Buffer)

module _ {Pool Buffer : Type 0} (o : BytePool Pool Buffer) where
  -- The comment on byte_buffer_pool::malloc.
  pub record IsPromised (q : Order) (b : Buffer) : Type 0 where
    pub header_room : q.header_len ≤ o.body_off b
    pub body_room : o.body_off b + q.body_len ≤ o.capacity b
    pub base_aligned : o.base b % 2 ^ q.align_bit ≡ 0
    pub body_aligned : o.body b % 2 ^ q.align_bit ≡ 0
    pub body_at : o.body b ≡ o.base b + o.body_off b
    pub unit : o.align b ≡ 2 ^ q.align_bit

  -- What an implementation owes: invariants of the pool and of the buffers it lends, for the orders
  -- that it can serve.
  pub record Contract : Type 1 where
    pub CanServe : Order → Type 0
    pub IsSound : Pool → Type 0
    pub IsLent : Order → Buffer → Type 0
    pub malloc-IsSound :
        (p : Pool) (q : Order)
        → IsSound p
        → CanServe q
        → IsLent q (o.malloc p q.body_len q.align_bit q.header_len q.at).0
          × IsSound (o.malloc p q.body_len q.align_bit q.header_len q.at).1
    pub end_buffer-IsSound :
        (p : Pool) (q : Order) (b : Buffer) → IsSound p → IsLent q b → IsSound (o.end_buffer p b)
    pub set_data_offset-IsLent :
        (q : Order) (b : Buffer) (at n : ℕ) → IsLent q b → IsLent q (o.set_data_offset at n b)
    pub set_data_begin-IsLent :
        (q : Order) (b : Buffer) (at : ℕ) → IsLent q b → IsLent q (o.set_data_begin at b)
    pub set_data_len-IsLent :
        (q : Order) (b : Buffer) (n : ℕ) → IsLent q b → IsLent q (o.set_data_len n b)
    pub promise : (q : Order) (b : Buffer) → IsLent q b → IsPromised q b

  -- The buffer at a place is changed.
  unfoldable pub change_at : ℕ → (Buffer → Buffer) → List (Order × Buffer) → List (Order × Buffer)
  change_at i f [] = []
  change_at zero f ((q, b) ∷ held) = (q, f b) ∷ held
  change_at (suc i) f (h ∷ held) = h ∷ change_at i f held

  -- It is taken out.
  unfoldable pub take_at : ℕ → List (Order × Buffer) → Option (Buffer × List (Order × Buffer))
  take_at i [] = none
  take_at zero ((q, b) ∷ held) = some (b, held)
  take_at (suc i) (h ∷ held) = elim (take_at i held) [
    | none ↦ none
    | some (b, rest) ↦ some (b, h ∷ rest)
  ]

  -- A call for a place where there is no buffer does nothing.
  unfoldable pub apply_call : Call → Session Pool Buffer → Session Pool Buffer
  unfolding change_at take_at
  apply_call (allocate q) s =
      let r = o.malloc s.pool q.body_len q.align_bit q.header_len q.at in
      record { pool = r.1; held = (q, r.0) ∷ s.held }
  apply_call (offset i at n) s = record s { held = change_at i (o.set_data_offset at n) s.held }
  apply_call (begin_at i at) s = record s { held = change_at i (o.set_data_begin at) s.held }
  apply_call (len i n) s = record s { held = change_at i (o.set_data_len n) s.held }
  apply_call (give_back i) s = elim (take_at i s.held) [
    | none ↦ s
    | some (b, rest) ↦ record { pool = o.end_buffer s.pool b; held = rest }
  ]

  unfoldable pub session : List Call → Session Pool Buffer → Session Pool Buffer
  unfolding apply_call
  session [] s = s
  session (c ∷ cs) s = session cs (apply_call c s)
