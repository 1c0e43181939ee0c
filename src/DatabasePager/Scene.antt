-- ===== src/DatabasePager/Scene.antt =====
-- updateSceneGraph as a whole and the ownership.
use vsg.Base.{
  ℕ, zero, suc, ◌≡◌, ap, Bool, true, false, Option, none, some, List, [], ◌∷◌, if◌then◌else◌,
  length, arith,
}
use vsg.PagedLodContainer.Chain.{occ}
use vsg.DatabasePager.{Pager}
use vsg.DatabasePager.Queue.{removed}
use vsg.DatabasePager.Update.{
  set_inactive, cull, expire, require, trim, trim_excess, merge_all, update_container,
  update_scene_graph,
}
use vsg.DatabasePager.Owned.{Threads, Owned}
use vsg.DatabasePager.Numbers.{Balanced-take_merge}
use vsg.DatabasePager.Steady.{trim_one-Owned, merge_one-Owned}

if-Owned :
    (c : Bool) (p p' : Pager) (t : Threads) → Owned p t → Owned p' t → Owned (if c then p else p') t
if-Owned true p p' t o o' = o
if-Owned false p p' t o o' = o'

module _ (t : Threads) where
  cull-Owned : (plods : List ℕ) (p : Pager) → Owned p t → Owned (cull plods p) t
  unfolding cull set_inactive Owned
  cull-Owned [] p o = o
  cull-Owned (plod ∷ plods) p o = cull-Owned plods _ (if-Owned _ _ p t o o)

  expire-Owned : (rounds index : ℕ) (p : Pager) → Owned p t → Owned (expire rounds index p) t
  unfolding expire set_inactive Owned
  expire-Owned zero index p o = o
  expire-Owned (suc rounds) index p o =
      if-Owned _ p _ t o (expire-Owned rounds _ _ (if-Owned _ p _ t o o))

  require-Owned : (plods : List ℕ) (p : Pager) → Owned p t → Owned (require plods p) t
  unfolding require Owned
  require-Owned [] p o = o
  require-Owned (plod ∷ plods) p o = require-Owned plods _ o

  trim-Owned :
      (rounds target index : ℕ) (p : Pager) → Owned p t → Owned (trim rounds target index p) t
  unfolding trim
  trim-Owned zero target index p o = o
  trim-Owned (suc rounds) target index p o =
      if-Owned _ p _ t o
        (if-Owned _ _ p t (trim-Owned rounds target _ _ (trim_one-Owned _ p t o)) o)

  trim_excess-Owned : (merged : ℕ) (p : Pager) → Owned p t → Owned (trim_excess merged p) t
  unfolding trim_excess
  trim_excess-Owned merged p o = if-Owned _ _ p t (trim-Owned _ _ _ p o) o

  update_container-Owned :
      (culled required : List ℕ) (merged : ℕ) (p : Pager)
      → Owned p t
      → Owned (update_container culled required merged p) t
  unfolding update_container
  update_container-Owned culled required merged p o =
      trim_excess-Owned merged _
        (require-Owned required _ (expire-Owned _ _ _ (cull-Owned culled p o)))

  merge_all-Owned :
      (nodes : List ℕ) (p : Pager)
      → Owned p (record t { to_merge = nodes })
      → Owned (merge_all nodes p) (record t { to_merge = [] })
  unfolding merge_all
  merge_all-Owned [] p o = o
  merge_all-Owned (plod ∷ nodes) p o =
      merge_all-Owned nodes _
        (merge_one-Owned plod p (record t { to_merge = plod ∷ nodes }) nodes (removed [] nodes) o)

started-Owned :
    (p : Pager) (t : Threads)
    → Owned p t
    → t.to_merge ≡ []
    → (frame_count : ℕ)
    → Owned
        (record p { frame_count = frame_count; semaphores = []; to_merge_queue = [] })
        (record t { to_merge = p.to_merge_queue })
unfolding Owned occ
started-Owned p t o none_left frame_count k =
    let empty : occ k t.to_merge ≡ 0 = ap (occ k) none_left in
    Balanced-take_merge (omega (arith, empty)) (o k)

-- A whole call of `update_scene_graph` keeps every requested PagedLOD in one queue or with one
-- thread, the one that its status names, and holds none to merge afterwards. No other call of it
-- is under way.
pub update_scene_graph-Owned :
    (p : Pager) (t : Threads)
    → Owned p t
    → t.to_merge ≡ []
    → (frame_count : ℕ) (culled : Option (List ℕ × List ℕ))
    → Owned (update_scene_graph frame_count culled p) (record t { to_merge = [] })
unfolding update_scene_graph Owned
update_scene_graph-Owned p t o none_left frame_count none =
    merge_all-Owned t p.to_merge_queue _ (started-Owned p t o none_left frame_count)
update_scene_graph-Owned p t o none_left frame_count (some (high_res_culled, required)) =
    merge_all-Owned t p.to_merge_queue _ (
      update_container-Owned (record t { to_merge = p.to_merge_queue }) high_res_culled required
        (length p.to_merge_queue) _ (started-Owned p t o none_left frame_count))
