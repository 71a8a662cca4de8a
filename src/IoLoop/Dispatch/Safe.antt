-- ===== src/IoLoop/Dispatch/Safe.antt =====
-- The assertions of io_loop::run.
use mathlib.Core.Logic.{◌≢◌}
use nsio.Base.{
  ℕ, ◌≡◌, refl, inl, inr, true, List, [], ◌∷◌, Option, none, some, Bool-cases, Option-cases, All,
}
use nsio.Base.Int.{ℤ, pos}
use nsio.IoLoop.{EsFile, IoLoop, epollin, epollout}
use nsio.IoLoop.Fds.{slot, put, has}
use nsio.IoLoop.Epoll.{interest, IsSlot, idle, reads, writes, both}
use nsio.IoLoop.Dispatch.{
  EpollEvent, call_w, call_r, ready_w, ready_r, dispatch_event, dispatch_all, ev_err,
}
use nsio.IoLoop.Dispatch.Good.{
  IsGood, Kept, IsCallback, inside, slot-put_self, Kept-trans, Kept-refl, IsGood-put,
}

no_w :
    {i : ℕ} {fe : EsFile} {k : Option ℕ} → IsSlot i fe k → IsSlot i (record fe { func_w = none }) k
no_w idle = idle
no_w (reads r) = reads r
no_w (writes w) = writes none
no_w (both w r) = both none r

no_r :
    {i : ℕ} {fe : EsFile} {k : Option ℕ} → IsSlot i fe k → IsSlot i (record fe { func_r = none }) k
no_r idle = idle
no_r (reads r) = reads none
no_r (writes w) = writes w
no_r (both w r) = both w none

has_out :
    {i f : ℕ} {fe : EsFile} {k : Option ℕ}
    → IsSlot i fe k
    → fe.func_w ≡ some f
    → has fe.event epollout ≡ true
has_out idle e = cc
has_out (reads r) e = cc
has_out (writes w) e = refl
has_out (both w r) e = refl

has_in :
    {i f : ℕ} {fe : EsFile} {k : Option ℕ}
    → IsSlot i fe k
    → fe.func_r ≡ some f
    → has fe.event epollin ≡ true
has_in idle e = cc
has_in (reads r) e = refl
has_in (writes w) e = cc
has_in (both w r) e = refl

in_use : {i : ℕ} {fe : EsFile} {k : Option ℕ} → IsSlot i fe k → k ≢ none → fe.fd ≢ none
in_use idle used = absurd (used refl)
in_use (reads r) used = λ e. cc
in_use (writes w) used = λ e. cc
in_use (both w r) used = λ e. cc

-- The descriptors of a batch are distinct.
abbrev pub Apart : List EpollEvent → Type 0
Apart [] = Unit {0}
Apart (e ∷ es) = All (λ (x : EpollEvent). x.fd ≢ e.fd) es × Apart es

module _ {R W : ℕ → ℕ → Type 0} {P : IoLoop → Type 0} (on_file : ℕ → ℕ → ℤ → IoLoop → IoLoop)
    (so_error : ℕ → ℕ) (c : IsCallback R W P on_file) where
  call_w-Kept :
      (fd : ℕ) (event : ℤ) (l : IoLoop)
      → IsGood R W P l
      → Kept R W P fd l (call_w on_file so_error fd event l)
  unfolding call_w
  call_w-Kept fd event l v = elim (Option-cases (slot l fd).func_w) [
    | inl gone ↦ rw (gone, call_w) (Kept-refl l v)
    | inr (f, here) ↦
        let within = inside fd l (λ e. cc) in
        let fe : EsFile = record (slot l fd) { func_w = none } in
        let v' =
          IsGood-put fd fe l c.table v within (no_w (v.synced.slots fd)) (v.manned fd).0 tt in
        let kind : W fd f = rw here at (v.manned fd).1 in
        let watched : has (slot (put fd fe l) fd).event epollout ≡ true =
          rw (slot-put_self fd fe l within) (has_out (v.synced.slots fd) here) in
        let kept = c.on_write f fd event _ kind v' watched in
        rw (here, call_w) (record { good = kept.good; others = kept.others })
  ]

  call_r-Kept :
      (fd : ℕ) (event : ℤ) (l : IoLoop)
      → IsGood R W P l
      → Kept R W P fd l (call_r on_file so_error fd event l)
  unfolding call_r
  call_r-Kept fd event l v = elim (Option-cases (slot l fd).func_r) [
    | inl gone ↦ rw (gone, call_r) (Kept-refl l v)
    | inr (f, here) ↦
        let within = inside fd l (λ e. cc) in
        let fe : EsFile = record (slot l fd) { func_r = none } in
        let v' =
          IsGood-put fd fe l c.table v within (no_r (v.synced.slots fd)) tt (v.manned fd).1 in
        let kind : R fd f = rw here at (v.manned fd).0 in
        let watched : has (slot (put fd fe l) fd).event epollin ≡ true =
          rw (slot-put_self fd fe l within) (has_in (v.synced.slots fd) here) in
        let kept = c.on_read f fd event _ kind v' watched in
        rw (here, call_r) (record { good = kept.good; others = kept.others })
  ]

  abbrev Goes : ℕ → IoLoop → Option IoLoop → Type 0
  Goes fd l r = (l' : IoLoop) × (r ≡ some l') × Kept R W P fd l l'

  ready_w-Goes :
      (fd events : ℕ) (l : IoLoop)
      → IsGood R W P l
      → Goes fd l (ready_w on_file so_error fd events l)
  unfolding ready_w
  ready_w-Goes fd events l v = elim (Option-cases (slot l fd).func_w) [
    | inl gone ↦ rw (gone, ready_w) (l, refl, Kept-refl l v)
    | inr (f, here) ↦ elim (Bool-cases (has events epollout)) [
      | inl out ↦
          rw (here, ready_w, out, has_out (v.synced.slots fd) here)
            (_, refl, call_w-Kept fd (pos 2) l v)
      | inr quiet ↦ rw (here, ready_w, quiet) (l, refl, Kept-refl l v)
    ]
  ]

  ready_r-Goes :
      (fd events : ℕ) (l : IoLoop)
      → IsGood R W P l
      → Goes fd l (ready_r on_file so_error fd events l)
  unfolding ready_r
  ready_r-Goes fd events l v = elim (Option-cases (slot l fd).func_r) [
    | inl gone ↦ rw (gone, ready_r) (l, refl, Kept-refl l v)
    | inr (f, here) ↦ elim (Bool-cases (has events epollin)) [
      | inl out ↦
          rw (here, ready_r, out, has_in (v.synced.slots fd) here)
            (_, refl, call_r-Kept fd (pos 1) l v)
      | inr quiet ↦ rw (here, ready_r, quiet) (l, refl, Kept-refl l v)
    ]
  ]

  dispatch_event-Goes :
      (e : EpollEvent) (l : IoLoop)
      → IsGood R W P l
      → interest l.ctls e.fd ≢ none
      → Goes e.fd l (dispatch_event on_file so_error e l)
  unfolding dispatch_event
  dispatch_event-Goes e l v known = elim (Option-cases (slot l e.fd).fd) [
    | inl gone ↦ absurd (in_use (v.synced.slots e.fd) known gone)
    | inr (j, used) ↦
        let within = inside e.fd l (λ same. cc) in
        elim (Bool-cases (has e.events ev_err)) [
          | inl err ↦
              let first = call_w-Kept e.fd _ l v in
              rw (within, used, dispatch_event, err)
                (_, refl, Kept-trans first (call_r-Kept e.fd _ _ first.good))
          | inr fine ↦
              let (l₁, ran, kept) = ready_w-Goes e.fd e.events l v in
              let (l₂, ran', kept') = ready_r-Goes e.fd e.events l₁ kept.good in
              rw (within, used, dispatch_event, fine, ran, dispatch_event)
                (l₂, ran', Kept-trans kept kept')
        ]
  ]

  still_known :
      (fd : ℕ) (l l' : IoLoop) (es : List EpollEvent)
      → Kept R W P fd l l'
      → All (λ (x : EpollEvent). x.fd ≢ fd) es
      → All (λ (x : EpollEvent). interest l.ctls x.fd ≢ none) es
      → All (λ (x : EpollEvent). interest l'.ctls x.fd ≢ none) es
  still_known fd l l' [] k a b = tt
  still_known fd l l' (e ∷ es) k a b = (k.others e.fd a.0 b.0, still_known fd l l' es k a.1 b.1)

  -- If the table agrees with the kernel's interest set, the objects that wait are of the right
  -- kind, a further invariant holds, the events are for distinct descriptors that the kernel knows,
  -- and every callback of a kind, called for a descriptor that is watched for its kind of event,
  -- keeps all this and gives up no interest but in that descriptor, then no assertion of the batch
  -- fails and all this holds afterwards.
  pub dispatch_all_safe :
      (es : List EpollEvent) (l : IoLoop)
      → IsGood R W P l
      → Apart es
      → All (λ (e : EpollEvent). interest l.ctls e.fd ≢ none) es
      → (l' : IoLoop) × (dispatch_all on_file so_error es l ≡ some l') × IsGood R W P l'
  unfolding dispatch_all
  dispatch_all_safe [] l v apart known = (l, refl, v)
  dispatch_all_safe (e ∷ es) l v apart known =
      let (l₁, ran, kept) = dispatch_event-Goes e l v known.0 in
      rw (ran, dispatch_all)
        (dispatch_all_safe es l₁ kept.good apart.1 (still_known e.fd l l₁ es kept apart.0 known.1))
