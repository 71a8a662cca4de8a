-- ===== src/ByteBuffer/Contract/Keeps.antt =====
-- Sessions with a pool that meets the contract of coio/byte_buffer.h.
use nsio.Base.{ℕ, zero, suc, ◌≡◌, refl, List, [], ◌∷◌, none, some, All, ◌⊎◌, inl, inr}
use nsio.ByteBuffer.Contract.{
  BytePool, Order, Call, allocate, offset, begin_at, len, give_back, Session, IsPromised, Contract,
  change_at, take_at, apply_call, session,
}

module _ {Pool Buffer : Type 0} (o : BytePool Pool Buffer) (c : Contract o) where
  abbrev pub IsOrdered : Order × Buffer → Type 0
  IsOrdered (q, b) = c.IsLent q b

  abbrev pub IsServable : Call → Type 0
  IsServable (allocate q) = c.CanServe q
  IsServable (offset i at n) = Unit {0}
  IsServable (begin_at i at) = Unit {0}
  IsServable (len i n) = Unit {0}
  IsServable (give_back i) = Unit {0}

  pub record IsInOrder (s : Session Pool Buffer) : Type 0 where
    pub sound : c.IsSound s.pool
    pub lent : All IsOrdered s.held

  change_at-All :
      (i : ℕ) (f : Buffer → Buffer) (held : List (Order × Buffer))
      → ((q : Order) (b : Buffer) → c.IsLent q b → c.IsLent q (f b))
      → All IsOrdered held
      → All IsOrdered (change_at o i f held)
  unfolding change_at
  change_at-All zero f [] h v = tt
  change_at-All (suc i) f [] h v = tt
  change_at-All zero f ((q, b) ∷ held) h v = (h q b v.0, v.1)
  change_at-All (suc i) f (x ∷ held) h v = (v.0, change_at-All i f held h v.1)

  take_at-All :
      (i : ℕ) (held : List (Order × Buffer))
      → All IsOrdered held
      → (take_at o i held ≡ none)
        ⊎ ((q : Order) × (b : Buffer) × (rest : List (Order × Buffer)) × (take_at o i held
              ≡ some (b, rest))
            × c.IsLent q b
            × All IsOrdered rest)
  unfolding take_at
  take_at-All zero [] v = inl refl
  take_at-All (suc i) [] v = inl refl
  take_at-All zero ((q, b) ∷ held) v = inr (q, b, held, refl, v.0, v.1)
  take_at-All (suc i) (x ∷ held) v = elim (take_at-All i held v.1) [
    | inl nobody ↦ inl (rw (nobody, take_at) refl)
    | inr (q, b, rest, taken, lent, others) ↦
        inr (q, b, x ∷ rest, rw (taken, take_at) refl, lent, (v.0, others))
  ]

  apply_call-IsInOrder :
      (x : Call) (s : Session Pool Buffer)
      → IsServable x
      → IsInOrder s
      → IsInOrder (apply_call o x s)
  unfolding apply_call
  apply_call-IsInOrder (allocate q) s can v =
      let (lent, sound) = c.malloc-IsSound s.pool q v.sound can in
      record { sound = sound; lent = (lent, v.lent) }
  apply_call-IsInOrder (offset i at n) s can v = record {
    sound = v.sound;
    lent = change_at-All i _ s.held (λ q b l. c.set_data_offset-IsLent q b at n l) v.lent;
  }
  apply_call-IsInOrder (begin_at i at) s can v = record {
    sound = v.sound;
    lent = change_at-All i _ s.held (λ q b l. c.set_data_begin-IsLent q b at l) v.lent;
  }
  apply_call-IsInOrder (len i n) s can v = record {
    sound = v.sound;
    lent = change_at-All i _ s.held (λ q b l. c.set_data_len-IsLent q b n l) v.lent;
  }
  apply_call-IsInOrder (give_back i) s can v = elim (take_at-All i s.held v.lent) [
    | inl nobody ↦ rw (nobody, apply_call) v
    | inr (q, b, rest, taken, lent, others) ↦
        rw (taken, apply_call)
          (record { sound = c.end_buffer-IsSound s.pool q b v.sound lent; lent = others })
  ]

  session-IsInOrder :
      (calls : List Call) (s : Session Pool Buffer)
      → All IsServable calls
      → IsInOrder s
      → IsInOrder (session o calls s)
  unfolding session
  session-IsInOrder [] s can v = v
  session-IsInOrder (x ∷ calls) s can v =
      session-IsInOrder calls (apply_call o x s) can.1 (apply_call-IsInOrder x s can.0 v)

  promises :
      (held : List (Order × Buffer))
      → All IsOrdered held
      → All (λ (h : Order × Buffer). IsPromised o h.0 h.1) held
  promises [] v = tt
  promises ((q, b) ∷ held) v = (c.promise q b v.0, promises held v.1)

  -- In any session from a pool that is sound, with orders that can be served, every buffer held meets
  -- the promise for its order, and the pool is sound.
  pub session_keeps :
      (calls : List Call) (p : Pool)
      → All IsServable calls
      → c.IsSound p
      → All
          (λ (h : Order × Buffer). IsPromised o h.0 h.1)
          (session o calls (record { pool = p; held = [] })).held
        × c.IsSound (session o calls (record { pool = p; held = [] })).pool
  session_keeps calls p can sound =
      let v =
        session-IsInOrder calls (record { pool = p; held = [] }) can
          (record { sound = sound; lent = tt }) in
      (promises _ v.lent, v.sound)
