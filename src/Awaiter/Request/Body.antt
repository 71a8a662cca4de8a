-- ===== src/Awaiter/Request/Body.antt =====
-- The loop of recv_request for the body, as the loop of recv_lazy on the rest of the request.
use nsio.Base.{
  ℕ, zero, suc, ◌+◌, ◌-◌, ◌^◌, ◌≤◌, ◌<◌, ◌≡◌, refl, inl, inr, false, List, [], ◌∷◌, ◌++◌, map,
  Option, none, some, arith, length, Bool-cases,
}
use nsio.Base.Int.{ℤ, pos, negsuc}
use nsio.ByteBuffer.{ByteBuffer}
use nsio.Awaiter.{
  Received, got, failed, Effect, arm_read, arm_write, wrote, cancel_read, cancel_write, set_errno,
  resume, Ended, store, below_size,
}
use nsio.Awaiter.Store.{store_inside, length-store, below_size→lt, below_size→ge}
use nsio.Awaiter.Recv.{RecvLazy, recv_loop}
use nsio.Awaiter.Request.{RecvRequest, body_loop, below}

-- recv(2) returns no more bytes than it was asked for: no reply crosses the end of what is missing.
abbrev pub IsCut : ℕ → List Received → Type 0
IsCut zero replies = Unit {0}
IsCut (suc k) [] = Unit {0}
IsCut (suc k) (got bytes ∷ rest) = (length bytes ≤ suc k) × IsCut (suc k - length bytes) rest
IsCut (suc k) (failed e ∷ rest) = IsCut (suc k) rest

pub IsCut-got :
    (k : ℕ) (bytes : List ℕ) (rest : List Received)
    → 0 < k
    → IsCut k (got bytes ∷ rest)
    → (length bytes ≤ k) × IsCut (k - length bytes) rest
IsCut-got zero bytes rest h cut = absurd (omega arith)
IsCut-got (suc k) bytes rest h cut = cut

pub IsCut-failed : (k e : ℕ) (rest : List Received) → IsCut k (failed e ∷ rest) → IsCut k rest
IsCut-failed zero e rest cut = tt
IsCut-failed (suc k) e rest cut = cut

-- A count of the rest as one of the whole request, of which the header is 6 bytes.
abbrev pub widen : ℤ → ℤ
widen (pos zero) = pos 0
widen (pos (suc n)) = pos (6 + suc n)
widen (negsuc n) = negsuc n

abbrev pub widen_effect : Effect → Effect
widen_effect arm_read = arm_read
widen_effect arm_write = arm_write
widen_effect (wrote bytes) = wrote bytes
widen_effect (cancel_read fd) = cancel_read fd
widen_effect (cancel_write fd) = cancel_write fd
widen_effect (set_errno e) = set_errno e
widen_effect (resume z) = resume (widen z)

-- The request whose rest a recv_lazy reads: its block has `pre`, the span and `post`.
abbrev pub around : RecvRequest → ByteBuffer → List ℕ → List ℕ → RecvLazy → RecvRequest
around s b pre post r = record s {
  result = widen r.result;
  recved_bytes = 6 + r.recved_bytes;
  request = some (b, pre ++ (r.buff ++ post));
}

abbrev pub widened :
    RecvRequest
    → ByteBuffer
    → List ℕ
    → List ℕ
    → Ended RecvLazy Received
    → Option (RecvRequest × List Effect × List Received)
widened s b pre post none = none
widened s b pre post (some (r, effects, rest)) =
    some (around s b pre post r, map widen_effect effects, rest)

module _ (s : RecvRequest) (b : ByteBuffer) (pre post : List ℕ)
    (begin : length pre ≡ b.data_begin + 6) where
  -- What fits together: the span is the rest of the request, which is not empty.
  pub record IsRest (r : RecvLazy) : Type 0 where
    pub some_rest : 0 < length r.buff
    pub within : r.recved_bytes ≤ length r.buff
    pub size : s.cmd_len ≡ 6 + length r.buff
    pub small : s.cmd_len < 2 ^ 31

  below-ltb :
      (r : RecvLazy)
      → IsRest r
      → below (6 + r.recved_bytes) s.cmd_len ≡ below_size r.recved_bytes (length r.buff)
  below-ltb r v = ground (arith, v.size, v.small)

  full_widens :
      (r : RecvLazy) (rest : List Received)
      → IsRest r
      → below_size r.recved_bytes (length r.buff) ≡ false
      → widen (pos r.recved_bytes) ≡ pos (6 + r.recved_bytes)
  full_widens r rest v full =
      let e : r.recved_bytes ≡ suc (length r.buff - 1) = omega (
        arith,
        below_size→ge r.recved_bytes (length r.buff) (inl (omega (arith, v.size, v.small))) full,
        v.some_rest,
        v.within,
      ) in
      rw e refl

  stored :
      (r : RecvLazy) (x : ℕ) (xs : List ℕ)
      → r.recved_bytes + length (x ∷ xs) ≤ length r.buff
      → store (pre ++ (r.buff ++ post)) (b.data_begin + (6 + r.recved_bytes)) (x ∷ xs)
        ≡ pre ++ (store r.buff r.recved_bytes (x ∷ xs) ++ post)
  stored r x xs h =
      let e : b.data_begin + (6 + r.recved_bytes) ≡ length pre + r.recved_bytes = omega arith in
      rw e (store_inside pre r.buff post r.recved_bytes (x ∷ xs) h)

  pub body_loop-recv_loop :
      (replies : List Received) (r : RecvLazy)
      → IsRest r
      → IsCut (length r.buff - r.recved_bytes) replies
      → body_loop replies (around s b pre post r) ≡ widened s b pre post (recv_loop replies r)
  unfolding body_loop recv_loop
  body_loop-recv_loop [] r v cut = elim (Bool-cases (below_size r.recved_bytes (length r.buff))) [
    | inl more ↦ rw (below-ltb r v, more) refl
    | inr full ↦ rw (below-ltb r v, full, full_widens r [] v full) refl
  ]
  body_loop-recv_loop (got [] ∷ rest) r v cut =
      elim (Bool-cases (below_size r.recved_bytes (length r.buff))) [
        | inl more ↦ rw (below-ltb r v, more) refl
        | inr full ↦ rw (below-ltb r v, full, full_widens r [] v full) refl
      ]
  body_loop-recv_loop (got (x ∷ xs) ∷ rest) r v cut =
      elim (Bool-cases (below_size r.recved_bytes (length r.buff))) [
        | inl more ↦
            rw (below-ltb r v, more)
              (let (asked, cut') =
                  IsCut-got (length r.buff - r.recved_bytes) (x ∷ xs) rest
                    (omega (arith, below_size→lt r.recved_bytes (length r.buff) more)) cut in
                let fits : r.recved_bytes + length (x ∷ xs) ≤ length r.buff =
                  omega (arith, asked, below_size→lt r.recved_bytes (length r.buff) more) in
                let r₁ : RecvLazy = record r {
                  recved_bytes = r.recved_bytes + length (x ∷ xs);
                  buff = store r.buff r.recved_bytes (x ∷ xs);
                } in
                let kept : length r₁.buff ≡ length r.buff =
                  omega (arith, length-store r.buff r.recved_bytes (x ∷ xs) v.within) in
                let v₁ : IsRest r₁ = record {
                  some_rest = omega (arith, kept, v.some_rest);
                  within = omega (arith, kept, fits);
                  size = omega (arith, kept, v.size);
                  small = v.small;
                } in
                let left : length r.buff - r.recved_bytes - length (x ∷ xs)
                    ≡ length r₁.buff - r₁.recved_bytes =
                  omega (arith, kept) in
                let sum : 6 + r.recved_bytes + suc (length xs)
                    ≡ 6 + (r.recved_bytes + suc (length xs)) =
                  omega arith in
                rw (stored r x xs fits, sum) (body_loop-recv_loop rest r₁ v₁ (rw left at cut')))
        | inr full ↦ rw (below-ltb r v, full, full_widens r [] v full) refl
      ]
  body_loop-recv_loop (failed e ∷ rest) r v cut =
      elim (Bool-cases (below_size r.recved_bytes (length r.buff))) [
        | inl more ↦
            rw (below-ltb r v, more)
              (ground (
                arith,
                body_loop-recv_loop rest r v
                    (IsCut-failed (length r.buff - r.recved_bytes) e rest cut),
              ))
        | inr full ↦ rw (below-ltb r v, full, full_widens r [] v full) refl
      ]
