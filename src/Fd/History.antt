-- ===== src/Fd/History.antt =====
-- Every history of calls on descriptors (tasking/fd.rs) keeps the counts of the pipes equal to the
-- ends in use.
use leaf_os_alpha.Base.{sym, subst, ◌∷◌}
use leaf_os_alpha.Fd.{FileSystem, clone}
use leaf_os_alpha.Fd.World.{
  World, Step, creates, clones, closes, reads, writes, opens_write, opens_read, Reach, here, next,
  Counts,
}
use leaf_os_alpha.Fd.Calls.{
  create_pipe-AllAgree, clone-AllAgree, close-AllAgree, read-AllAgree, write-AllAgree,
  opens_write-Counts, opens_read-Counts,
}
use leaf_os_alpha.Fd.Ends.{AllAgree}

-- Every call keeps the counts of all pipes equal to the numbers of descriptors in use.
Step-Counts :
    {Disk : Type 0} (fs : FileSystem Disk) {v w : World Disk} → Step fs v w → Counts v → Counts w
Step-Counts fs {v} (creates e) all = subst Counts (sym e) (create_pipe-AllAgree v.store v.live all)
Step-Counts fs {v} (clones d before after u e) all = subst Counts (sym e) (
    subst (λ l. AllAgree (clone v.store d).pipes (d ∷ l)) (sym u)
      (clone-AllAgree v.store d before after (subst (AllAgree v.store.pipes) u all)))
Step-Counts fs {v} (closes d before after u e) all =
    subst Counts (sym e)
      (close-AllAgree v.store d before after (subst (AllAgree v.store.pipes) u all))
Step-Counts fs {v} (reads d size e) all =
    subst Counts (sym e) (read-AllAgree v.store v.live all d size)
Step-Counts fs {v} (writes d input e) all =
    subst Counts (sym e) (write-AllAgree v.store v.live all fs d input)
Step-Counts fs {v} (opens_write path e) all =
    subst Counts (sym e) (opens_write-Counts v.store v.live all fs path)
Step-Counts fs {v} (opens_read path e) all =
    subst Counts (sym e) (opens_read-Counts v.store v.live all fs path)

-- In every world that calls on descriptors lead to, from one where it holds, each pipe's `readers`
-- and `writers` are the numbers of read ends and write ends in use, its ring is valid, and no
-- descriptor in use names a pipe that is not there.
pub Reach-Counts :
    {Disk : Type 0} (fs : FileSystem Disk) {v w : World Disk} → Reach fs v w → Counts v → Counts w
Reach-Counts fs here all = all
Reach-Counts fs (next r st) all = Step-Counts fs st (Reach-Counts fs r all)
