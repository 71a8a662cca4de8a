-- ===== src/IoLoop/Async.antt =====
-- Functions that other threads hand to the loop: async, async_call and the eventfd's handler. A posted
-- function runs as `call` says; a lock makes each use of the queue one step.
use mathlib.Core.List.{append-nil, append_assoc}
use nsio.Base.{
  ℕ, ◌+◌, ◌≡◌, refl, sym, ap, ◌∙◌, Bool, List, [], ◌∷◌, ◌++◌, ◌==◌, if◌then◌else◌, Option, none,
  some,
}
use nsio.IoLoop.{EsFile, IoLoop}
use nsio.IoLoop.Fds.{slot, put}

-- io_loop::is_local_thread
unfoldable pub is_local_thread : ℕ → IoLoop → Bool
is_local_thread caller l = caller == l.thread_id

-- io_loop::async
unfoldable pub async : ℕ → IoLoop → IoLoop
async func l = record l { async_funcs = l.async_funcs ++ func ∷ []; wakes = l.wakes + 1 }

-- io_loop::async_call by the thread `caller`
unfoldable pub async_call : (ℕ → IoLoop → IoLoop) → ℕ → ℕ → IoLoop → IoLoop
unfolding is_local_thread async
async_call call caller func l = if is_local_thread caller l then call func l else async func l

-- A std::future: its value is there, or comes when the loop calls the posted function.
pub data Future : Type 0 where
  fulfilled : Future
  pending : ℕ → Future

-- io_loop::async_return; `none` is its failed assertion. What is posted calls `func` and then sets the
-- promise, so that `func` names it too.
unfoldable pub async_return : ℕ → ℕ → IoLoop → Option (Future × IoLoop)
unfolding is_local_thread async
async_return caller func l =
    if is_local_thread caller l then none else some (pending func, async func l)

-- io_loop::async_call_return
unfoldable pub async_call_return : (ℕ → IoLoop → IoLoop) → ℕ → ℕ → IoLoop → Option (Future × IoLoop)
unfolding is_local_thread async_return
async_call_return call caller func l =
    if is_local_thread caller l then some (fulfilled, call func l) else async_return caller func l

-- for (auto & func : _async_funcs_tmp) func();
unfoldable pub call_all : (ℕ → IoLoop → IoLoop) → List ℕ → IoLoop → IoLoop
call_all call [] l = l
call_all call (f ∷ fs) l = call_all call fs (call f l)

-- _async_funcs_tmp.swap(_async_funcs), under the lock
unfoldable pub swap_funcs : IoLoop → IoLoop
swap_funcs l = record l { async_funcs_tmp = l.async_funcs; async_funcs = l.async_funcs_tmp }

-- io_loop::on_file_event on the entry of `event_fd`; `this` is the loop itself. eventfd_read takes the
-- count to zero. The last store goes to the entry as it then is: C++ leaves it undefined where a
-- function that was called has made the table move.
unfoldable pub on_async_event : (ℕ → IoLoop → IoLoop) → ℕ → ℕ → IoLoop → IoLoop
unfolding swap_funcs call_all put
on_async_event call event_fd this l =
    let swapped = swap_funcs (record l { wakes = 0 }) in
    let called = call_all call swapped.async_funcs_tmp swapped in
    let cleared = record called { async_funcs_tmp = [] } in
    put event_fd (record (slot cleared event_fd) { func_r = some this }) cleared

-- A posted function that may post others: it leaves the functions that are running alone, appends
-- `posts f` to the queue, a wake for each, and `log` shows its call.
pub record IsPosting (call : ℕ → IoLoop → IoLoop) (posts : ℕ → List ℕ) (log : IoLoop → List ℕ)
    : Type 0 where
  pub running : (f : ℕ) (l : IoLoop) → (call f l).async_funcs_tmp ≡ l.async_funcs_tmp
  pub appends : (f : ℕ) (l : IoLoop) → (call f l).async_funcs ≡ l.async_funcs ++ posts f
  pub logs : (f : ℕ) (l : IoLoop) → log (call f l) ≡ log l ++ f ∷ []
  pub apart :
      (tmp fs : List ℕ) (n : ℕ) (table : List EsFile) (l : IoLoop)
      → log (record l { async_funcs_tmp = tmp; async_funcs = fs; wakes = n; fds = table }) ≡ log l

-- What the functions of a list post, in order.
abbrev pub posted : (ℕ → List ℕ) → List ℕ → List ℕ
posted posts [] = []
posted posts (f ∷ fs) = posts f ++ posted posts fs

module _ (call : ℕ → IoLoop → IoLoop) (posts : ℕ → List ℕ) (log : IoLoop → List ℕ)
    (c : IsPosting call posts log) where
  call_all-log : (fs : List ℕ) (l : IoLoop) → log (call_all call fs l) ≡ log l ++ fs
  unfolding call_all
  call_all-log [] l = sym (append-nil (log l))
  call_all-log (f ∷ fs) l =
      call_all-log fs (call f l)
      ∙ ap (λ (x : List ℕ). x ++ fs) (c.logs f l)
      ∙ append_assoc (log l) (f ∷ []) fs

  call_all-posts :
      (fs : List ℕ) (l : IoLoop)
      → (call_all call fs l).async_funcs ≡ l.async_funcs ++ posted posts fs
  unfolding call_all
  call_all-posts [] l = sym (append-nil l.async_funcs)
  call_all-posts (f ∷ fs) l =
      call_all-posts fs (call f l)
      ∙ ap (λ (x : List ℕ). x ++ posted posts fs) (c.appends f l)
      ∙ append_assoc l.async_funcs (posts f) (posted posts fs)

  -- If no function is left running, and the posted functions leave the running ones alone, append
  -- what they post to the queue and are logged, then one event of the eventfd calls the functions
  -- in the queue, each once, in the order of posting; the queue then holds exactly what they
  -- posted, in order; and again no function is left running.
  pub async_runs_once :
      (event_fd this : ℕ) (l : IoLoop)
      → l.async_funcs_tmp ≡ []
      → (log (on_async_event call event_fd this l) ≡ log l ++ l.async_funcs)
        × ((on_async_event call event_fd this l).async_funcs ≡ posted posts l.async_funcs)
        × ((on_async_event call event_fd this l).async_funcs_tmp ≡ [])
  unfolding on_async_event swap_funcs put
  async_runs_once event_fd this l idle =
      let swapped = swap_funcs (record l { wakes = 0 }) in
      let called = call_all call l.async_funcs swapped in
      (
        c.apart [] called.async_funcs called.wakes
              (put event_fd (record (slot called event_fd) { func_r = some this }) called).fds
              called
            ∙ call_all-log l.async_funcs swapped
            ∙ ap (λ (x : List ℕ). x ++ l.async_funcs)
                (c.apart l.async_funcs l.async_funcs_tmp 0 l.fds l),
        call_all-posts l.async_funcs swapped
            ∙ ap (λ (x : List ℕ). x ++ posted posts l.async_funcs) idle,
        refl,
      )
