-- ===== src/Awaiter/Request/Header.antt =====
-- The loop of recv_request for its header.
use mathlib.Core.List.{append_assoc}
use nsio.Base.{
  ℕ, suc, ◌+◌, ◌-◌, ◌≤◌, ◌<◌, ◌≡◌, refl, ap, ◌∙◌, ◌⊎◌, inl, inr, false, List, [], ◌∷◌, ◌++◌, ltb,
  arith, length, drop, Bool-cases, ==_iff, ltb→lt, ltb→ge, length-append,
}
use nsio.Base.Int.{ℤ, pos, negsuc, nonpos}
use nsio.Awaiter.{Received, got, failed, store, eagain}
use nsio.Awaiter.Store.{store_extends}
use nsio.Awaiter.Recv.Assembly.{received, Benign}
use nsio.Awaiter.Request.{RecvRequest, HeaderEnd, waits, leaves, header_loop}
use nsio.Awaiter.Request.Body.{IsCut, IsCut-got, IsCut-failed}

-- `front` has arrived, of a message of which `rest` will bring the others.
pub record IsAt (message front room : List ℕ) (s : RecvRequest) (rest : List Received)
    : Type 0 where
  pub split : s.buf ≡ front ++ room
  pub count : s.recved_bytes ≡ length front
  pub whole : front ++ received rest ≡ message
  pub benign : Benign rest
  pub cut : IsCut (6 - length front) rest

pub record HasHeader (message : List ℕ) (n : ℕ) (z : ℤ) (r : HeaderEnd) : Type 0 where
  pub rc : ℤ
  pub now : RecvRequest
  pub rest : List Received
  pub front : List ℕ
  pub room : List ℕ
  pub ends : r ≡ leaves rc now rest
  pub got_some : nonpos rc ≡ false
  pub is_at : IsAt message front room now rest
  pub six : length front ≡ 6
  pub kept : now.result ≡ z
  pub fewer : length rest ≤ n

pub record WantsHeader (message : List ℕ) (n : ℕ) (z : ℤ) (r : HeaderEnd) : Type 0 where
  pub now : RecvRequest
  pub rest : List Received
  pub front : List ℕ
  pub room : List ℕ
  pub ends : r ≡ waits (negsuc 0) now rest
  pub is_at : IsAt message front room now rest
  pub short : length front < 6
  pub kept : now.result ≡ z
  pub fewer : length rest < n

abbrev Goes : List ℕ → ℕ → ℤ → HeaderEnd → Type 0
Goes message n z r = HasHeader message n z r ⊎ WantsHeader message n z r

later :
    {message : List ℕ} {n : ℕ} {z : ℤ} {r : HeaderEnd}
    → Goes message n z r
    → Goes message (suc n) z r
later (inl h) = inl (record {
  rc = h.rc;
  now = h.now;
  rest = h.rest;
  front = h.front;
  room = h.room;
  ends = h.ends;
  got_some = h.got_some;
  is_at = h.is_at;
  six = h.six;
  kept = h.kept;
  fewer = omega (arith, h.fewer);
})
later (inr w) = inr (record {
  now = w.now;
  rest = w.rest;
  front = w.front;
  room = w.room;
  ends = w.ends;
  is_at = w.is_at;
  short = w.short;
  kept = w.kept;
  fewer = omega (arith, w.fewer);
})

leaves_full :
    (message front room : List ℕ) (rc : ℤ) (s : RecvRequest) (rest : List Received)
    → IsAt message front room s rest
    → length front ≡ 6
    → nonpos rc ≡ false
    → Goes message (length rest) s.result (leaves rc s rest)
leaves_full message front room rc s rest a six good = inl (record {
  rc = rc;
  now = s;
  rest = rest;
  front = front;
  room = room;
  ends = refl;
  got_some = good;
  is_at = a;
  six = six;
  kept = refl;
  fewer = omega arith;
})

pub header_loop_goes :
    (message : List ℕ) (replies : List Received) (rc : ℤ) (front room : List ℕ) (s : RecvRequest)
    → 6 ≤ length message
    → length front ≤ 6
    → (length front ≡ 6 → nonpos rc ≡ false)
    → IsAt message front room s replies
    → Goes message (length replies) s.result (header_loop rc replies s)
unfolding header_loop
header_loop_goes message [] rc front room s long short good a =
    let six : length front ≡ 6 = omega (arith, ap length a.whole, length-append front [], long) in
    let full : ltb s.recved_bytes 6 ≡ false = ground (arith, a.count) in
    rw full (leaves_full message front room rc s [] a six (good six))
header_loop_goes message (got [] ∷ rest) rc front room s long short good a = absurd a.benign
header_loop_goes message (got (b ∷ bs) ∷ rest) rc front room s long short good a =
    elim (Bool-cases (ltb s.recved_bytes 6)) [
      | inr full ↦
          let six : length front ≡ 6 = omega (arith, ltb→ge _ _ full, a.count) in
          rw full (leaves_full message front room rc s (got (b ∷ bs) ∷ rest) a six (good six))
      | inl more ↦
          let under : length front < 6 = omega (arith, ltb→lt _ _ more, a.count) in
          let (asked, cut') = IsCut-got (6 - length front) (b ∷ bs) rest (omega arith) a.cut in
          let front' : List ℕ = front ++ b ∷ bs in
          let size : length front' ≡ length front + length (b ∷ bs) =
            length-append front (b ∷ bs) in
          let left : 6 - length front - length (b ∷ bs) ≡ 6 - length front' = omega (arith, size) in
          rw more (
            later (
              header_loop_goes message rest (pos (length (b ∷ bs))) front'
                (drop (length (b ∷ bs)) room)
                (record s {
                  recved_bytes = s.recved_bytes + length (b ∷ bs);
                  buf = store s.buf s.recved_bytes (b ∷ bs);
                })
                long (omega (arith, size, asked)) (λ _. refl)
                (record {
                  split = rw (a.split, a.count) (store_extends front room (b ∷ bs));
                  count = omega (arith, a.count, size);
                  whole = append_assoc front (b ∷ bs) (received rest) ∙ a.whole;
                  benign = a.benign;
                  cut = rw left at cut';
                })))
    ]
header_loop_goes message (failed e ∷ rest) rc front room s long short good a =
    elim (Bool-cases (ltb s.recved_bytes 6)) [
      | inr full ↦
          let six : length front ≡ 6 = omega (arith, ltb→ge _ _ full, a.count) in
          rw full (leaves_full message front room rc s (failed e ∷ rest) a six (good six))
      | inl more ↦
          let under : length front < 6 = omega (arith, ltb→lt _ _ more, a.count) in
          let a' : IsAt message front room s rest = record {
            split = a.split;
            count = a.count;
            whole = a.whole;
            benign = a.benign.1;
            cut = IsCut-failed (6 - length front) e rest a.cut;
          } in
          rw more (elim a.benign.0 [
            | inl again ↦ rw ((==_iff e eagain).1 again) (
                inr (record {
                  now = s;
                  rest = rest;
                  front = front;
                  room = room;
                  ends = refl;
                  is_at = a';
                  short = under;
                  kept = refl;
                  fewer = omega arith;
                }))
            | inr interrupted ↦ rw interrupted (
                later (
                  header_loop_goes message rest (negsuc 0) front room s long short
                    (λ six. absurd (omega arith)) a'))
          ])
    ]
