-- ===== src/Examples/Watch.antt =====
-- Calls on two descriptors of a new loop.
use nsio.Base.{ℕ, ◌≡◌, List, [], ◌∷◌}
use nsio.IoLoop.Epoll.{interest}
use nsio.IoLoop.Synced.{new_loop-IsSynced}
use nsio.IoLoop.Watch.{Call, on_read, on_write, off_write, off, mask_of, spec, calls, watch}
use nsio.IoLoop.Watch.Refines.{calls_refine}
use nsio.Examples.Loop.{succeeds, started}

abbrev mixed_calls : List (ℕ × Call)
mixed_calls = (4, on_write 7) ∷ (5, on_read 9) ∷ (4, on_read 8) ∷ (5, off) ∷ (4, off_write) ∷ []

calls_refine_example :
    (watch (calls succeeds mixed_calls started) 4 ≡ spec mixed_calls (watch started) 4)
    × (interest (calls succeeds mixed_calls started).ctls 4
        ≡ mask_of (spec mixed_calls (watch started) 4))
calls_refine_example =
    calls_refine succeeds mixed_calls started 4 (new_loop-IsSynced succeeds 4 100)
