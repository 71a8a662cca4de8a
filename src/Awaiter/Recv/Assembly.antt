-- ===== src/Awaiter/Recv/Assembly.antt =====
-- recv_lazy over several readiness events: a message that the kernel cuts into reads, with interrupted
-- calls and waits between them.
use mathlib.Core.List.{append_assoc}
use nsio.Base.{
  ℕ, zero, suc, ◌+◌, ◌^◌, ◌<◌, ◌≡◌, refl, sym, ap, ◌∙◌, ◌⊎◌, inl, inr, Bool, true, false, List, [],
  ◌∷◌, ◌++◌, Option, none, some, arith, length, drop, Bool-cases, ==_iff, length-append,
  length-drop,
}
use nsio.Base.Int.{pos}
use nsio.Awaiter.{
  Received, got, failed, Effect, arm_read, set_errno, resume, Ended, store, below_size, eagain,
  eintr,
}
use nsio.Awaiter.Store.{store_extends, below_size→ge}
use nsio.Awaiter.Recv.{RecvLazy, recv_loop, on_file_event}

-- All the bytes of a sequence of replies.
abbrev pub received : List Received → List ℕ
received [] = []
received (got bytes ∷ rest) = bytes ++ received rest
received (failed e ∷ rest) = received rest

-- Data, EAGAIN and EINTR only.
abbrev pub Benign : List Received → Type 0
Benign [] = Unit {0}
Benign (got [] ∷ rest) = ⊥
Benign (got (b ∷ bs) ∷ rest) = Benign rest
Benign (failed e ∷ rest) = ((e ≡ eagain) ⊎ (e ≡ eintr)) × Benign rest

unfoldable pub is_armed : List Effect → Bool
is_armed [] = false
is_armed (arm_read ∷ _) = true
is_armed (_ ∷ _) = false

-- The loop calls the handler at each of at most n readiness events, until it resumes the coroutine.
pub serve : ℕ → List Received → RecvLazy → Option (RecvLazy × List Effect)
unfolding is_armed
serve zero replies s = none
serve (suc n) replies s = elim (on_file_event (pos 1) replies s) [
  | none ↦ none
  | some (s', effects, rest) ↦ elim (is_armed effects) [
    | true ↦ serve n rest s'
    | false ↦ some (s', effects)
  ]
]

-- `front` has arrived, `room` is what the span held beyond it.
pub record Filled (front room : List ℕ) (s : RecvLazy) : Type 0 where
  pub split : s.buff ≡ front ++ room
  pub count : s.recved_bytes ≡ length front

pub record Complete (message : List ℕ) (r : Ended RecvLazy Received) : Type 0 where
  pub last : RecvLazy
  pub rest : List Received
  pub ends : r ≡ some (last, resume (pos (length message)) ∷ [], rest)
  pub whole : last.buff ≡ message

pub record Waiting (message : List ℕ) (n : ℕ) (r : Ended RecvLazy Received) : Type 0 where
  pub now : RecvLazy
  pub rest : List Received
  pub front : List ℕ
  pub room : List ℕ
  pub ends : r ≡ some (now, arm_read ∷ set_errno 0 ∷ [], rest)
  pub filled : Filled front room now
  pub small : length now.buff < 2 ^ 31
  pub whole : front ++ received rest ≡ message
  pub fits : length (received rest) ≡ length room
  pub benign : Benign rest
  pub fewer : length rest < n

nil_of_length {ℓ} : {A : Type ℓ} (xs : List A) → length xs ≡ 0 → xs ≡ []
nil_of_length [] h = refl
nil_of_length (x ∷ xs) h = absurd (omega arith)

span_size :
    {front room : List ℕ} {s : RecvLazy}
    → Filled front room s
    → length s.buff ≡ length front + length room
span_size {front} {room} f = ap length f.split ∙ length-append front room

later :
    (m m' : List ℕ) (n : ℕ) (r : Ended RecvLazy Received)
    → m ≡ m'
    → Complete m r ⊎ Waiting m n r
    → Complete m' r ⊎ Waiting m' (suc n) r
later m m' n r e (inl c) =
    inl (record { last = c.last; rest = c.rest; ends = rw (← e) c.ends; whole = c.whole ∙ e })
later m m' n r e (inr w) = inr (record {
  now = w.now;
  rest = w.rest;
  front = w.front;
  room = w.room;
  ends = w.ends;
  filled = w.filled;
  small = w.small;
  whole = w.whole ∙ e;
  fits = w.fits;
  benign = w.benign;
  fewer = omega (arith, w.fewer);
})

full_span :
    (front room bytes : List ℕ) (s : RecvLazy) (rest : List Received)
    → Filled front room s
    → length bytes ≡ length room
    → length s.buff < 2 ^ 31
    → below_size s.recved_bytes (length s.buff) ≡ false
    → Complete
        (front ++ bytes)
        (some (record s { result = pos s.recved_bytes }, resume (pos s.recved_bytes) ∷ [], rest))
full_span front room bytes s rest f same small full =
    let none_left : length room ≡ 0 =
      omega (arith, span_size f, f.count, below_size→ge _ _ (inl small) full) in
    let no_bytes : bytes ≡ [] = nil_of_length bytes (same ∙ none_left) in
    let no_room : room ≡ [] = nil_of_length room none_left in
    let count : s.recved_bytes ≡ length (front ++ bytes) =
      omega (arith, length-append front bytes, f.count, same) in
    record {
      last = record s { result = pos s.recved_bytes };
      rest = rest;
      ends =
          ap (λ (n : ℕ). some (record s { result = pos s.recved_bytes }, resume (pos n) ∷ [], rest))
            count;
      whole = f.split ∙ ap (λ (x : List ℕ). front ++ x) (no_room ∙ sym no_bytes);
    }

pub recv_loop_goes :
    (replies : List Received) (front room : List ℕ) (s : RecvLazy)
    → Filled front room s
    → length s.buff < 2 ^ 31
    → length (received replies) ≡ length room
    → Benign replies
    → Complete (front ++ received replies) (recv_loop replies s)
      ⊎ Waiting (front ++ received replies) (length replies) (recv_loop replies s)
unfolding recv_loop
recv_loop_goes [] front room s f small same b =
    let full : below_size s.recved_bytes (length s.buff) ≡ false =
      ground (arith, span_size f, f.count, small) in
    rw full (inl (full_span front room [] s [] f same small full))
recv_loop_goes (got [] ∷ rest) front room s f small same b = absurd b
recv_loop_goes (got (b ∷ bs) ∷ rest) front room s f small same ok =
    let size = length-append (b ∷ bs) (received rest) in
    let more : below_size s.recved_bytes (length s.buff) ≡ true =
      ground (arith, span_size f, f.count, size, small) in
    let s₁ : RecvLazy = record s {
      recved_bytes = s.recved_bytes + length (b ∷ bs);
      buff = store s.buff s.recved_bytes (b ∷ bs);
    } in
    let f' : Filled (front ++ b ∷ bs) (drop (length (b ∷ bs)) room) s₁ = record {
      split = rw (f.split, f.count) (store_extends front room (b ∷ bs));
      count = omega (arith, f.count, length-append front (b ∷ bs));
    } in
    let left : length (received rest) ≡ length (drop (length (b ∷ bs)) room) =
      omega (arith, length-drop (length (b ∷ bs)) room, size) in
    let small' : length s₁.buff < 2 ^ 31 = omega (
      arith,
      small,
      span_size f,
      span_size f',
      length-append front (b ∷ bs),
      length-drop (length (b ∷ bs)) room,
      size,
      same,
    ) in
    rw more (
      later ((front ++ b ∷ bs) ++ received rest) (front ++ ((b ∷ bs) ++ received rest))
        (length rest) (recv_loop rest s₁) (append_assoc front (b ∷ bs) (received rest))
        (recv_loop_goes rest (front ++ b ∷ bs) (drop (length (b ∷ bs)) room) s₁ f' small' left ok))
recv_loop_goes (failed e ∷ rest) front room s f small same (why, ok) =
    elim (Bool-cases (below_size s.recved_bytes (length s.buff))) [
      | inr full ↦ rw full (inl (full_span front room (received rest) s _ f same small full))
      | inl more ↦ rw more (elim why [
        | inl again ↦ rw ((==_iff e eagain).1 again) (
            inr (record {
              now = s;
              rest = rest;
              front = front;
              room = room;
              ends = refl;
              filled = f;
              small = small;
              whole = refl;
              fits = same;
              benign = ok;
              fewer = omega arith;
            }))
        | inr interrupted ↦
            rw (interrupted)
              (later _ _ (length rest) _ refl (recv_loop_goes rest front room s f small same ok))
      ])
    ]

serve_goes :
    (n : ℕ) (message : List ℕ) (replies : List Received) (front room : List ℕ) (s : RecvLazy)
    → Filled front room s
    → length s.buff < 2 ^ 31
    → front ++ received replies ≡ message
    → length (received replies) ≡ length room
    → Benign replies
    → length replies < n
    → (s' : RecvLazy) × (serve n replies s ≡ some (s', resume (pos (length message)) ∷ []))
      × (s'.buff ≡ message)
unfolding serve on_file_event
serve_goes zero message replies front room s f small whole same b h = elim h [ ]
serve_goes (suc n) message replies front room s f small whole same b h =
    elim (recv_loop_goes replies front room s f small same b) [
      | inl c ↦ (c.last, rw (c.ends, serve, whole) refl, c.whole ∙ whole)
      | inr w ↦
          rw (w.ends, serve)
            (serve_goes n message w.rest w.front w.room w.now w.filled w.small (w.whole ∙ whole)
              w.fits w.benign (omega (arith, w.fewer)))
    ]

-- If the span has less than 2^31 bytes, nothing has been received, and the replies are EAGAIN,
-- EINTR and reads that together bring exactly as many bytes as the span has, then with more
-- readiness events than replies recv_lazy resumes the coroutine, with the size of the span, and the
-- span holds the bytes in the order of their arrival.
pub recv_assembles :
    (n : ℕ) (replies : List Received) (s : RecvLazy)
    → s.recved_bytes ≡ 0
    → length s.buff < 2 ^ 31
    → length (received replies) ≡ length s.buff
    → Benign replies
    → length replies < n
    → (s' : RecvLazy) × (serve n replies s ≡ some (s', resume (pos (length s.buff)) ∷ []))
      × (s'.buff ≡ received replies)
recv_assembles n replies s fresh small same b h = rw (← same) (
    serve_goes n (received replies) replies [] s.buff s (record { split = refl; count = fresh })
      small refl same b h)
