-- ===== src/ByteBuffer/Ownership.antt =====
-- Who owns a block: the buffers that malloc has handed out, the cache, or nobody, once it is freed. The
-- calls of one pool's users are a step relation; buffer_pool has no lock, and one thread uses it.
pub mod Once
use nsio.Base.{
  ℕ, ◌+◌, ◌≡◌, Bool, true, List, [], ◌∷◌, ◌++◌, map, Option, none, some, ◌==◌, if◌then◌else◌,
}
use nsio.ByteBuffer.{
  ByteBufferData, ByteBuffer, BufferPool, new_inst, malloc, destroy, find, lookup_key, header_size,
  body_size, u32, set_data_offset, set_data_begin, set_data_len,
}

-- `allocated` lists what aligned_alloc has returned, an address as often as it was returned.
pub record Owned : Type 0 where
  pub pool : BufferPool
  pub held : List ByteBuffer
  pub allocated : List ℕ

-- How often an address is in a list.
abbrev pub times : ℕ → List ℕ → ℕ
times a [] = 0
times a (b ∷ bs) = (if b == a then 1 else 0) + times a bs

abbrev pub addresses : List ByteBuffer → List ℕ
addresses bs = map (λ (b : ByteBuffer). b.m_d.m_data) bs

abbrev pub cached : BufferPool → List ℕ
cached p = map (λ (e : ℕ × ByteBufferData). e.1.m_data) p.cache

-- The block that malloc finds in its cache for a request.
abbrev pub found : BufferPool → ℕ → ℕ → ℕ → Option ByteBufferData
found p body_len k header_len =
    find (lookup_key (u32 (header_size header_len k + body_size body_len k)) k) p.cache

-- aligned_alloc is called where there is none.
abbrev pub asked : Option ByteBufferData → ℕ → List ℕ
asked none at = at ∷ []
asked (some d) at = []

-- A call on a buffer that its holder makes.
pub data Edit : Type 0 where
  to_offset : (at n : ℕ) → Edit
  to_begin : (at : ℕ) → Edit
  to_len : (n : ℕ) → Edit

abbrev pub edit : Edit → ByteBuffer → ByteBuffer
unfolding set_data_offset set_data_begin set_data_len
edit (to_offset at n) b = set_data_offset at n b
edit (to_begin at) b = set_data_begin at b
edit (to_len n) b = set_data_len n b

-- malloc, and its buffer in the caller's hands.
abbrev pub served : Owned → ℕ → ℕ → ℕ → ℕ → Owned
served s body_len k header_len at =
    let r = malloc s.pool body_len k header_len at in
    record {
      pool = r.1;
      held = r.0 ∷ s.held;
      allocated = asked (found s.pool body_len k header_len) at ++ s.allocated;
    }

-- The pool's constructor, and nothing in use.
abbrev pub unused_pool : ℕ → Owned
unused_pool limit = record { pool = new_inst limit; held = []; allocated = [] }

pub data Step (s : Owned) : Owned → Type 0 where
  -- aligned_alloc returns no address that is in use.
  request :
      (body_len k header_len at : ℕ)
      → (found s.pool body_len k header_len ≡ none
          → times at (addresses s.held ++ cached s.pool) ≡ 0)
      → Step s (served s body_len k header_len at)
  change :
      (before after : List ByteBuffer) (b : ByteBuffer) (e : Edit)
      → s.held ≡ before ++ b ∷ after
      → Step s (record s { held = before ++ edit e b ∷ after })
  drop_one :
      (before after : List ByteBuffer) (b : ByteBuffer)
      → s.held ≡ before ++ b ∷ after
      → Step s (record s { pool = destroy s.pool b; held = before ++ after })

pub data Reach (limit : ℕ) : Owned → Type 0 where
  start : Reach limit (unused_pool limit)
  later : {s t : Owned} → Reach limit s → Step s t → Reach limit t
