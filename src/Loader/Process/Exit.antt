-- ===== src/Loader/Process/Exit.antt =====
-- What is left of a task that exits.
use pso.Base.{ℕ, ◌<◌, ◌≡◌, refl, sym, ap, ◌∙◌, subst, List, ◌∷◌, false, has, update, sub32, arith}
use pso.Device.{CharDev}
use pso.Device.Descriptors.{device_release_devices_lem}
use pso.Sched
use pso.Sched.Queue
use pso.Sched.Queue.{IsPid, Represents, running, current}
use pso.Sched.Refine.{exit_refines}
use pso.Loader.{Task, free_pid}
use pso.Loader.Pids.{IsFree, free_pid-get_new_pid}
use pso.Loader.Process.{Kernel, switch_exit, loader_exit}

-- Storing a stack pointer changes no directory.
stored-cr3 :
    (t : ℕ → Task) (old v p : ℕ) → (update t old (record (t old) { esp0 = v }) p).cr3 ≡ (t p).cr3
stored-cr3 t old v p = ground arith

emptied :
    (t : ℕ → Task) (x : Task) (old p : ℕ)
    → old ≡ p
    → (update t old (record x { cr3 = 0 }) p).cr3 ≡ 0
emptied t x old p e = ground arith

-- A running task `c` exits. The next task in order runs, in its own directory; `c` has no directory
-- and none of its 32 descriptors any more, and its pid is the next one to be handed out, before those
-- that were free already.
pub loader_exit_lem :
    {W : Type 0} (ops : CharDev W) (k : Kernel W) (c n : ℕ) (xs ys : List ℕ)
    → Represents k.loader.sched (running c xs n)
    → k.loader.cur_pid ≡ c
    → IsFree k.loader ys
    → has c ys ≡ false
    → let next = current (Queue.leave (running c xs n)) in
      let k' = loader_exit ops k in
      Represents k'.loader.sched (Queue.leave (running c xs n))
      × (k'.loader.cur_pid ≡ next)
      × (k'.loader.cpu.cr3 ≡ (k.loader.task_table next).cr3)
      × ((k'.loader.task_table c).cr3 ≡ 0)
      × ((fd : ℕ) → fd < 32 → k'.devices.char_devices c fd ≡ 0)
      × IsFree k'.loader (c ∷ ys)
      × (k'.loader.tasks_running ≡ sub32 k.loader.tasks_running 1)
unfolding loader_exit switch_exit free_pid
loader_exit_lem ops k c n xs ys r e f out =
    let (q, next, left) = exit_refines c xs n k.loader.sched r in
    let old = k.loader.cur_pid in
    let esp = sub32 k.loader.cpu.esp 16 in
    let t = update k.loader.task_table old (record (k.loader.task_table old) { esp0 = esp }) in
    let freed =
      (free_pid-get_new_pid old ys k.loader (subst IsPid (sym e) (r.4.pids.0))
        (subst (λ a. has a ys ≡ false) (sym e) out) f).0 in
    let kept : IsFree (loader_exit ops k).loader (old ∷ ys) = record {
      chain = freed.chain;
      distinct = freed.distinct;
      pids = freed.pids;
    } in
    (
      q,
      next,
      stored-cr3 k.loader.task_table old esp (Sched.exit k.loader.sched).0
          ∙ ap (λ p. (k.loader.task_table p).cr3) next,
      emptied t (t old) old c e,
      λ fd lt.
          device_release_devices_lem ops (record k.devices { cur_pid = old }) c fd
          ∙ ground (arith, e, lt),
      subst (λ a. IsFree (loader_exit ops k).loader (a ∷ ys)) e kept,
      refl,
    )
