-- ===== src/Examples/Ownership.antt =====
-- A block that is used, given back to the cache, and used again; and a session with two orders.
use nsio.Base.{ℕ, ◌%◌, ◌^◌, ◌≡◌, refl, List, [], ◌∷◌, map, arith, All}
use nsio.ByteBuffer.{
  ByteBuffer, new_inst, malloc, destroy, release, new_buffer, find, set_data_offset, set_data_begin,
  set_data_len, base, key, erase,
}
use nsio.ByteBuffer.Ownership.{
  Owned, served, unused_pool, edit, to_offset, request, change, drop_one, Reach, start, later,
}
use nsio.ByteBuffer.Pool.{IsValid, IsRequest, header_fits}
use nsio.ByteBuffer.Contract.{
  Order, Call, allocate, offset, len, give_back, IsPromised, session, apply_call, change_at,
  take_at,
}
use nsio.ByteBuffer.Contract.Kept.{buffer_pool, IsFitting, sessions_keep_promises}
use nsio.ByteBuffer.Ownership.Once.{IsOwned, Reach-IsOwned}

-- A pool without a limit for what it caches.
abbrev served_once : Owned
served_once = served (unused_pool 0) 100 9 6 4096

abbrev given : ByteBuffer
given = edit (to_offset 6 100) (malloc (new_inst 0) 100 9 6 4096).0

abbrev filled : Owned
filled = record served_once { held = given ∷ [] }

abbrev given_back : Owned
given_back = record filled { pool = destroy filled.pool given; held = [] }

abbrev served_twice : Owned
served_twice = served given_back 100 9 6 8192

served_twice-Reach : Reach 0 served_twice
unfolding new_inst malloc destroy release new_buffer find set_data_offset set_data_begin
    set_data_len
served_twice-Reach =
    later
      (later
        (later (later start (request 100 9 6 4096 (λ e. refl)))
          (change [] [] (malloc (new_inst 0) 100 9 6 4096).0 (to_offset 6 100) refl))
        (drop_one [] [] given refl))
      (request 100 9 6 8192 (λ e. refl))

Reach-IsOwned_example : IsOwned served_twice
Reach-IsOwned_example = Reach-IsOwned served_twice-Reach

-- A buffer is written, given back and recycled, while a second one is held.
abbrev two_orders : List Call
two_orders =
    allocate (record { body_len = 100; align_bit = 9; header_len = 6; at = 4096 })
    ∷ offset 0 506 106
    ∷ give_back 0
    ∷ allocate (record { body_len = 100; align_bit = 9; header_len = 6; at = 8192 })
    ∷ allocate (record { body_len = 5000; align_bit = 12; header_len = 0; at = 8192 })
    ∷ len 1 0
    ∷ give_back 7
    ∷ []

hundred : IsRequest 100 9 6
hundred = record { shift = omega arith; room = omega arith; short = omega arith }

page : IsRequest 5000 12 0
page = record { shift = omega arith; room = omega arith; short = omega arith }

page_fits : IsFitting (record { body_len = 5000; align_bit = 12; header_len = 0; at = 8192 })
page_fits = record {
  request = page;
  placed = refl;
  narrow = omega (arith, (header_fits 5000 12 0 page).tight);
}

hundred_fits :
    (at : ℕ)
    → at % 2 ^ 9 ≡ 0
    → IsFitting (record { body_len = 100; align_bit = 9; header_len = 6; at = at })
hundred_fits at placed = record {
  request = hundred;
  placed = placed;
  narrow = omega (arith, (header_fits 100 9 6 hundred).tight);
}

sessions_keep_promises_example :
    let s = session buffer_pool two_orders (record { pool = new_inst 0; held = [] }) in
    All (λ (h : Order × ByteBuffer). IsPromised buffer_pool h.0 h.1) s.held × IsValid s.pool
sessions_keep_promises_example =
    sessions_keep_promises 0 two_orders
      (hundred_fits 4096 refl, (tt, (tt, (hundred_fits 8192 refl, (page_fits, (tt, (tt, tt)))))))

-- The recycled block is the first one.
recycled :
    map
      (λ (h : Order × ByteBuffer). base h.1)
      (session buffer_pool two_orders (record { pool = new_inst 0; held = [] })).held
    ≡ 8192 ∷ 4096 ∷ []
unfolding session apply_call change_at take_at new_inst malloc destroy release new_buffer find
    set_data_offset set_data_len base key erase
recycled = refl
