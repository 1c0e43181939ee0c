-- ===== src/DatabasePager/Update.antt =====
-- DatabasePager::updateSceneGraph. Its loops go along the container's lists, which have no more
-- elements than the vector: they run on that many rounds.
use vsg.Base.{
  ℕ, zero, suc, ◌+◌, ◌-◌, Bool, false, ◌&&◌, ◌||◌, not, Option, none, some, List, [], ◌∷◌, ◌++◌,
  length, ltb, ◌==◌, if◌then◌else◌,
}
use vsg.Base.Word.{add32, sub32}
use vsg.PagedLodContainer.{ListName, active, inactive, same, activate, inactivate, remove}
use vsg.DatabasePager.{
  no_request, merge_request, merging, delete_request, Pager, set_plod, compare_exchange,
  high_res_active,
}

unfoldable pub is_active : Option ListName → Bool
is_active none = false
is_active (some l) = same l active

unfoldable pub set_inactive : ℕ → Pager → Pager
set_inactive plod pager = record pager { container = inactivate plod pager.container }

-- for (auto& plod : culledPagedLODs->highresCulled)
unfoldable pub cull : List ℕ → Pager → Pager
cull [] pager = pager
cull (plod ∷ plods) pager =
    let c = pager.container in
    let culled =
      not (c.index plod == 0)
      && is_active (c.elements (c.index plod)).list
      && not (high_res_active pager.frame_count (pager.plods plod)) in
    cull plods (if culled then set_inactive plod pager else pager)

-- The loop over the list of active elements.
unfoldable pub expire : ℕ → ℕ → Pager → Pager
expire zero index pager = pager
expire (suc rounds) index pager =
    let element = pager.container.elements index in
    let next =
      if high_res_active pager.frame_count (pager.plods element.plod)
      then pager
      else set_inactive element.plod pager in
    let rest = expire rounds element.next next in if index == 0 then pager else rest

-- for (auto& plod : culledPagedLODs->newHighresRequired)
unfoldable pub require : List ℕ → Pager → Pager
require [] pager = pager
require (plod ∷ plods) pager =
    require plods (record pager { container = activate plod pager.container })

-- The body of the loop over the list of inactive elements.
unfoldable pub trim_one : ℕ → Pager → Pager
trim_one plod pager =
    let (done, next) = compare_exchange plod no_request delete_request pager in
    let dropped = set_plod plod (record (next.plods plod) { child = none }) next in
    if done
    then record dropped {
      container = remove plod dropped.container;
      compile_queue = dropped.compile_queue ++ plod ∷ [];
    }
    else next

unfoldable pub trim : ℕ → ℕ → ℕ → Pager → Pager
trim zero target index pager = pager
trim (suc rounds) target index pager =
    let element = pager.container.elements index in
    let rest = trim rounds target element.next (trim_one element.plod pager) in
    if index == 0
    then pager
    else if ltb target (pager.container.lists inactive).count
    then rest
    else pager

-- How many inactive elements are left, with `merged` nodes to merge: all, if there is no excess.
unfoldable pub target_num_inactive : ℕ → Pager → ℕ
target_num_inactive merged pager =
    let num_inactive = (pager.container.lists inactive).count in
    let total = add32 (pager.container.lists active).count num_inactive in
    let excess = sub32 (add32 merged total) pager.target_max_num in
    if ltb excess num_inactive then num_inactive - excess else 0

unfoldable pub trim_excess : ℕ → Pager → Pager
trim_excess merged pager =
    let c = pager.container in
    let total = add32 (c.lists active).count (c.lists inactive).count in
    let trimmed = trim c.size (target_num_inactive merged pager) (c.lists inactive).head pager in
    if ltb pager.target_max_num (merged + total) then trimmed else pager

-- `_semaphores`, a set, as a list without repetitions.
unfoldable pub has_semaphore : ℕ → List ℕ → Bool
has_semaphore s [] = false
has_semaphore s (x ∷ xs) = (x == s) || has_semaphore s xs

unfoldable pub insert_semaphore : Option ℕ → List ℕ → List ℕ
insert_semaphore none xs = xs
insert_semaphore (some s) xs = if has_semaphore s xs then xs else xs ++ s ∷ []

-- The body of the last loop.
unfoldable pub merge_one : ℕ → Pager → Pager
merge_one plod pager =
    let (done, next) = compare_exchange plod merge_request merging pager in
    let p = next.plods plod in
    let semaphores = insert_semaphore p.semaphore next.semaphores in
    let merged =
      record (set_plod plod (record p { child = p.pending; semaphore = none; status = no_request })
        next) { semaphores = semaphores } in
    if done then merged else next

unfoldable pub merge_all : List ℕ → Pager → Pager
merge_all [] pager = pager
merge_all (plod ∷ nodes) pager = merge_all nodes (merge_one plod pager)

-- The part under if (culledPagedLODs).
unfoldable pub update_container : List ℕ → List ℕ → ℕ → Pager → Pager
update_container culled required merged pager =
    let after_cull = cull culled pager in
    let c = after_cull.container in
    let after_expire = expire c.size (c.lists active).head after_cull in
    trim_excess merged (require required after_expire)

-- With the lists of `culledPagedLODs`, none for null.
unfoldable pub update_scene_graph : ℕ → Option (List ℕ × List ℕ) → Pager → Pager
update_scene_graph frame_count culled pager =
    let nodes = pager.to_merge_queue in
    let started = record pager {
      frame_count = frame_count;
      semaphores = [];
      to_merge_queue = [];
    } in
    let updated : Pager = elim culled [
      | none ↦ started
      | some (high_res_culled, required) ↦
          update_container high_res_culled required (length nodes) started
    ] in
    let merged = merge_all nodes updated in
    record merged { num_active_requests = sub32 merged.num_active_requests (length nodes) }
