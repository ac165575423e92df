-- ===== src/HashJoin/Phase.antt =====
-- application/hashjoin_benchmark/listener.h, notification_task.h and notifier.cpp: the counters that
-- tell when every core has handled the tasks of a phase. The partition task of each core sends one
-- notification to each core, behind its last task for it.
pub mod Complete
use mxtasking.Prelude.{
  ℕ, zero, suc, ◌+◌, ◌-◌, ◌%◌, Bool, true, false, ◌&&◌, ltb, ◌==◌, if◌then◌else◌, List, [], ◌∷◌,
  ◌++◌, u32_mod,
}

pub record Listener : Type 0 where
  pub count_cores : ℕ
  pub pending_local : ℕ → ℕ
  pub pending_global : ℕ

-- The constructor.
abbrev pub create : ℕ → Listener
create count_cores = record {
  count_cores = count_cores;
  pending_local = λ i. if ltb i count_cores then count_cores else 0;
  pending_global = count_cores;
}

abbrev pub decrement : ℕ → ℕ
decrement n = (n + u32_mod - 1) % u32_mod

-- `NotificationTask::execute`: the counters after it, and whether it calls the notifier.
unfoldable pub notify : Listener → ℕ → Listener × Bool
notify l channel_id =
    let local = decrement (l.pending_local channel_id) in
    let global = decrement l.pending_global in
    let counted = record l {
      pending_local = λ i. if channel_id == i then local else l.pending_local i;
    } in
    if local == 0
    then (record counted { pending_global = global }, global == 0)
    else (counted, false)

-- The counters after notifications on these channels, the latest first.
unfoldable pub after : ℕ → List ℕ → Listener
unfolding notify
after count_cores [] = create count_cores
after count_cores (channel_id ∷ earlier) = (notify (after count_cores earlier) channel_id).0

-- `BuildFinishedNotifier::operator()`: the tasks that it spawns, for the `left` cores from
-- `target` on.
unfoldable pub spawn_probes : (ℕ → ℕ) → ℕ → ℕ → List ℕ
spawn_probes probe_tasks zero target = []
spawn_probes probe_tasks (suc left) target =
    probe_tasks target ∷ spawn_probes probe_tasks left (target + 1)

-- `ProbeFinishedNotifier::operator()`
abbrev pub spawn_merge : ℕ → List ℕ
spawn_merge merge_task = merge_task ∷ []
