-- ===== src/Memory/Reclamation/Safety.antt =====
-- No resource is reclaimed by mx/memory/reclamation/epoch_manager.cpp that a channel may still read.
use mxtasking.Prelude.{
  ℕ, zero, suc, ◌+◌, ◌-◌, ◌≤◌, ◌<◌, ◌≡◌, ap, min, List, [], ◌∷◌, Bool-cases, inl, inr, ◌==◌, ltb,
  arith, dec_lt,
}
use mxtasking.Util.Queue.{Queue, null}
use mxtasking.Util.Queue.Chain.{NotIn}
use mxtasking.Util.MpscQueue
use mxtasking.Util.MpscQueue.{MpscQueue}
use mxtasking.Memory.Reclamation.{
  EpochManager, set_epoch, min_loop, min_local_epoch, add_to_garbage_collection, reclaim_loop,
  reclaim_epoch_garbage,
}

min_loop-least :
    (epochs : ℕ → ℕ) (left channel least : ℕ)
    → (min_loop epochs left channel least ≤ least)
      × ((c : ℕ) → channel ≤ c → c < channel + left → min_loop epochs left channel least ≤ epochs c)
unfolding min_loop
min_loop-least epochs zero channel least = (omega arith, λ c p q. absurd (omega arith))
min_loop-least epochs (suc left) channel least =
    let (a, b) = min_loop-least epochs left (channel + 1) (min least (epochs channel)) in
    (
      omega (arith, a),
      λ c p q. elim (dec_lt channel c) [
        | yes r ↦ b c (omega arith) (omega arith)
        | no r ↦ let e : c ≡ channel = omega arith in rw e (omega (arith, a))
      ],
    )

-- No local epoch is below the minimum.
min_local_epoch-least :
    (m : EpochManager) (c : ℕ) → c < m.count_channels → min_local_epoch m ≤ m.local_epochs c
unfolding min_local_epoch
min_local_epoch-least m zero h =
    (min_loop-least m.local_epochs (m.count_channels - 1) 1 (m.local_epochs 0)).0
min_local_epoch-least m (suc c) h =
    (min_loop-least m.local_epochs (m.count_channels - 1) 1 (m.local_epochs 0)).1 (suc c)
      (omega arith) (omega arith)

-- Every resource of a list was removed before the epoch.
abbrev pub AllBefore : (ℕ → ℕ) → ℕ → List ℕ → Type 0
AllBefore remove_epoch epoch [] = Unit {0}
AllBefore remove_epoch epoch (r ∷ rs) = (remove_epoch r < epoch) × AllBefore remove_epoch epoch rs

reclaim_loop-AllBefore :
    (remove_epoch : ℕ → ℕ) (epoch fuel : ℕ) (garbage : MpscQueue) (deferred : Queue)
    → AllBefore remove_epoch epoch (reclaim_loop remove_epoch epoch fuel garbage deferred).0
unfolding reclaim_loop
reclaim_loop-AllBefore f epoch zero garbage deferred = tt
reclaim_loop-AllBefore f epoch (suc fuel) garbage deferred =
    let (r, g) = MpscQueue.pop_front garbage in
    elim (Bool-cases (r == null)) [
      | inl e ↦ rw e tt
      | inr e ↦ elim (Bool-cases (ltb (f r) epoch)) [
        | inl t ↦ rw (e, t) (ground arith, reclaim_loop-AllBefore f epoch fuel g deferred)
        | inr t ↦ rw (e, t) (reclaim_loop-AllBefore f epoch fuel _ _)
      ]
    ]

AllBefore-weaken : (f : ℕ → ℕ) (a b : ℕ) (xs : List ℕ) → a ≤ b → AllBefore f a xs → AllBefore f b xs
AllBefore-weaken f a b [] l h = tt
AllBefore-weaken f a b (x ∷ xs) l h = (omega (arith, h.0), AllBefore-weaken f a b xs l h.1)

-- Every resource that a call of `reclaim_epoch_garbage` reclaims was removed in an epoch below the
-- local epoch of every channel.
pub reclaim_epoch_garbage-AllBefore :
    (fuel : ℕ) (m : EpochManager) (c : ℕ)
    → c < m.count_channels
    → AllBefore m.remove_epoch (m.local_epochs c) (reclaim_epoch_garbage fuel m).0
unfolding reclaim_epoch_garbage
reclaim_epoch_garbage-AllBefore fuel m c h =
    AllBefore-weaken m.remove_epoch (min_local_epoch m) (m.local_epochs c) _
      (min_local_epoch-least m c h)
      (reclaim_loop-AllBefore m.remove_epoch (min_local_epoch m) fuel _ _)

AllBefore-NotIn :
    (f : ℕ → ℕ) (epoch r : ℕ) (xs : List ℕ) → epoch ≤ f r → AllBefore f epoch xs → NotIn r xs
AllBefore-NotIn f epoch r [] l h = tt
AllBefore-NotIn f epoch r (x ∷ xs) l h =
    (λ e. omega (arith, h.0, ap f e), AllBefore-NotIn f epoch r xs l h.1)

-- A resource that is removed while a channel is in an epoch not above the global one is not
-- reclaimed by a call of `reclaim_epoch_garbage` that runs before the channel enters another epoch
-- and before anything else is removed.
pub protected_reader :
    (fuel : ℕ) (m : EpochManager) (resource c : ℕ)
    → c < m.count_channels
    → m.local_epochs c ≤ m.global_epoch
    → NotIn resource (reclaim_epoch_garbage fuel (add_to_garbage_collection m resource)).0
unfolding add_to_garbage_collection
protected_reader fuel m resource c h l =
    AllBefore-NotIn (set_epoch m.remove_epoch resource m.global_epoch) (m.local_epochs c) resource _
      (ground arith)
      (reclaim_epoch_garbage-AllBefore fuel (add_to_garbage_collection m resource) c h)
