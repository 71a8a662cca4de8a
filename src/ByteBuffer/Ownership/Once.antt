-- ===== src/ByteBuffer/Ownership/Once.antt =====
-- The owners of each block in the states that calls on a pool can reach.
use mathlib.Core.List.{map-append}
use nsio.Base.{
  ℕ, ◌+◌, ◌≤◌, ◌≡◌, refl, ap, ◌∙◌, inl, inr, true, List, [], ◌∷◌, ◌++◌, map, none, some, ◌==◌,
  if◌then◌else◌, arith, All, Bool-cases, Option-cases, ==_iff,
}
use nsio.ByteBuffer.{
  ByteBufferData, ByteBuffer, BufferPool, new_inst, end_pool, malloc, release, destroy, find, erase,
  new_buffer,
}
use nsio.ByteBuffer.Ownership.{
  Owned, times, addresses, cached, found, served, Edit, to_offset, to_begin, to_len, edit, Step,
  request, change, drop_one, Reach, start, later,
}

times-append : (a : ℕ) (bs cs : List ℕ) → times a (bs ++ cs) ≡ times a bs + times a cs
times-append a [] = λ cs. omega arith
times-append a (b ∷ bs) = λ cs. omega (arith, times-append a bs cs)

times-addresses :
    (a : ℕ) (bs cs : List ByteBuffer)
    → times a (addresses (bs ++ cs)) ≡ times a (addresses bs) + times a (addresses cs)
times-addresses a bs cs =
    rw (map-append (λ (b : ByteBuffer). b.m_d.m_data) bs cs)
      (times-append a (addresses bs) (addresses cs))

times-erase :
    (a k : ℕ) (m : List (ℕ × ByteBufferData)) (d : ByteBufferData)
    → find k m ≡ some d
    → times a (map (λ (e : ℕ × ByteBufferData). e.1.m_data) m)
      ≡ (if d.m_data == a then 1 else 0)
        + times a (map (λ (e : ℕ × ByteBufferData). e.1.m_data) (erase k m))
unfolding find erase
times-erase a k [] d e = cc
times-erase a k ((j, c) ∷ m) d e = elim (Bool-cases (j == k)) [
  | inl hit ↦ let same : c ≡ d = ground arith in rw (hit, same) refl
  | inr miss ↦ rw miss (omega (arith, times-erase a k m d (ground arith)))
]

All-append :
    (bs cs : List ByteBuffer)
    → All (λ (b : ByteBuffer). b.m_pool ≡ true) bs
    → All (λ (b : ByteBuffer). b.m_pool ≡ true) cs
    → All (λ (b : ByteBuffer). b.m_pool ≡ true) (bs ++ cs)
All-append [] cs p q = q
All-append (b ∷ bs) cs p q = (p.0, All-append bs cs p.1 q)

All-split :
    (bs : List ByteBuffer) (b : ByteBuffer) (cs : List ByteBuffer)
    → All (λ (b : ByteBuffer). b.m_pool ≡ true) (bs ++ b ∷ cs)
    → All (λ (b : ByteBuffer). b.m_pool ≡ true) bs
      × (b.m_pool ≡ true)
      × All (λ (b : ByteBuffer). b.m_pool ≡ true) cs
All-split [] b cs p = (tt, p.0, p.1)
All-split (x ∷ bs) b cs p = let (l, m, r) = All-split bs b cs p.1 in ((p.0, l), m, r)

pub record IsOwned (s : Owned) : Type 0 where
  pub pooled : All (λ (b : ByteBuffer). b.m_pool ≡ true) s.held
  pub balanced :
      (a : ℕ) → times a s.allocated ≡ times a (addresses s.held) + times a (end_pool s.pool)
  pub alone : (a : ℕ) → times a (addresses s.held ++ cached s.pool) ≤ 1

-- The same with the parts of the pool apart.
record Parts (s : Owned) (a : ℕ) : Type 0 where
  all :
      times a s.allocated
      ≡ times a (addresses s.held) + (times a (cached s.pool) + times a s.pool.freed)
  live : times a (addresses s.held) + times a (cached s.pool) ≤ 1

parts : (s : Owned) → IsOwned s → (a : ℕ) → Parts s a
unfolding end_pool
parts s v a = record {
  all = omega (arith, v.balanced a, times-append a (cached s.pool) s.pool.freed);
  live = omega (arith, v.alone a, times-append a (addresses s.held) (cached s.pool));
}

whole :
    (s : Owned)
    → All (λ (b : ByteBuffer). b.m_pool ≡ true) s.held
    → ((a : ℕ) → Parts s a)
    → IsOwned s
unfolding end_pool
whole s p q = record {
  pooled = p;
  balanced = λ a. omega (arith, (q a).all, times-append a (cached s.pool) s.pool.freed);
  alone = λ a. omega (arith, (q a).live, times-append a (addresses s.held) (cached s.pool));
}

request-Parts :
    (s : Owned) (body_len k header_len at a : ℕ)
    → (found s.pool body_len k header_len ≡ none → times at (addresses s.held ++ cached s.pool) ≡ 0)
    → Parts s a
    → Parts (served s body_len k header_len at) a
unfolding malloc new_buffer
request-Parts s body_len k header_len at a apart q =
    elim (Option-cases (found s.pool body_len k header_len)) [
      | inr (d, hit) ↦
          let split = times-erase a _ s.pool.cache d hit in
          rw (hit, malloc)
            (record { all = omega (arith, q.all, split); live = omega (arith, q.live, split) })
      | inl miss ↦
          rw (miss, malloc)
            (elim (Bool-cases (at == a)) [
              | inl same ↦
                  let e : at ≡ a = (==_iff at a).0 same in
                  let none_here : times a (addresses s.held ++ cached s.pool) ≡ 0 =
                    rw e at (apart miss) in
                  record {
                    all = rw same (omega (arith, q.all));
                    live = rw same (
                        omega
                          (arith, none_here, times-append a (addresses s.held) (cached s.pool)));
                  }
              | inr other ↦ record {
                all = rw other (omega (arith, q.all));
                live = rw other (omega (arith, q.live));
              }
            ])
    ]

malloc-pooled :
    (p : BufferPool) (body_len k header_len at : ℕ)
    → (malloc p body_len k header_len at).0.m_pool ≡ true
unfolding malloc new_buffer
malloc-pooled p body_len k header_len at = ground arith

edit_keeps : (e : Edit) (b : ByteBuffer) → ((edit e b).m_pool ≡ b.m_pool) × ((edit e b).m_d ≡ b.m_d)
unfolding edit
edit_keeps (to_offset at n) b = (refl, refl)
edit_keeps (to_begin at) b = (refl, refl)
edit_keeps (to_len n) b = (refl, refl)

destroy-Parts :
    (s : Owned) (before after : List ByteBuffer) (b : ByteBuffer) (a : ℕ)
    → s.held ≡ before ++ b ∷ after
    → b.m_pool ≡ true
    → Parts s a
    → Parts (record s { pool = destroy s.pool b; held = before ++ after }) a
unfolding destroy release
destroy-Parts s before after b a e pooled q =
    let split = ap (λ (bs : List ByteBuffer). times a (addresses bs)) e in
    let old = times-addresses a before (b ∷ after) in
    let new = times-addresses a before after in
    rw pooled (record {
      all = ground (arith, q.all, split, old, new);
      live = ground (arith, q.live, split, old, new);
    })

Step-IsOwned : {s t : Owned} → IsOwned s → Step s t → IsOwned t
Step-IsOwned {s} v (request body_len k header_len at apart) =
    whole _ (malloc-pooled s.pool body_len k header_len at, v.pooled)
      (λ a. request-Parts s body_len k header_len at a apart (parts s v a))
Step-IsOwned {s} v (change before after b x e) =
    let (l, m, r) = All-split before b after (rw e at v.pooled) in
    let (kept, same) = edit_keeps x b in
    whole _ (All-append before (edit x b ∷ after) l (kept ∙ m, r)) (λ a.
      let q = parts s v a in
      let split = ap (λ (bs : List ByteBuffer). times a (addresses bs)) e in
      let old = times-addresses a before (b ∷ after) in
      let new = times-addresses a before (edit x b ∷ after) in
      let here : times a (addresses (edit x b ∷ after)) ≡ times a (addresses (b ∷ after)) =
        rw same refl in
      record {
        all = omega (arith, q.all, split, old, new, here);
        live = omega (arith, q.live, split, old, new, here);
      })
Step-IsOwned {s} v (drop_one before after b e) =
    let (l, m, r) = All-split before b after (rw e at v.pooled) in
    whole _ (All-append before after l r) (λ a. destroy-Parts s before after b a e m (parts s v a))

-- In every state that calls of malloc, of the setters of buffers and of the destructor of buffers
-- can bring a new pool to, where aligned_alloc returns no address that is held or cached, all
-- buffers belong to the pool; each address has been allocated as often as it is held, or freed by
-- the time the pool is destroyed; and no address is held or cached twice.
pub Reach-IsOwned : {limit : ℕ} {s : Owned} → Reach limit s → IsOwned s
unfolding new_inst end_pool
Reach-IsOwned start = record { pooled = tt; balanced = λ a. omega arith; alone = λ a. omega arith }
Reach-IsOwned (later r st) = Step-IsOwned (Reach-IsOwned r) st
