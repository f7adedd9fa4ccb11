-- ===== src/Vfs/Frame.antt =====
-- crates/carminedesktop-vfs/src/core_ops.rs: what the lookups leave as it is.
use carmine_desktop.Common.{
  ℕ, zero, suc, ◌≡◌, refl, ◌∙◌, String, Bool, true, false, Option, none, List, [], ◌∷◌, arith,
  Option-cases, Bool-cases, inl, inr, if_lem, if_cases, ◌==◌, nat_eq, string_eq, and_then,
}
use carmine_desktop.Common.Map.{Map}
use carmine_desktop.Graph
use carmine_desktop.Graph.{Call, Service}
use carmine_desktop.Inode
use carmine_desktop.Inode.{root_inode}
use carmine_desktop.Item.{DriveItem, parent_id, Result, ok, err}
use carmine_desktop.Memory
use carmine_desktop.Store
use carmine_desktop.Store.{SqliteStore}
use carmine_desktop.Vfs.{
  CoreOps, VfsEnv, VfsResult, success, failure, set_memory, set_inodes, cache_item, lookup_stored,
  lookup_item, path_segments, display_path_under, graph_call, timed_result, graph_with_timeout,
  set_offline, is_network,
}
use carmine_desktop.Vfs.Lookup.{
  child_by_name, stored_by_name, adopt_children, keep_children, find_answered, find_on_server,
  find_stored, find_child,
}
use carmine_desktop.Memory.{MemoryCache}
pub use carmine_desktop.Vfs.Frame.Steps.{
  IsFramed, IsFramed-trans, lookup_item-IsFramed, display_path_under-IsFramed,
}
use carmine_desktop.Vfs.Frame.Steps.{
  IsFramed-refl, set_memory-IsFramed, cache_item-IsFramed, graph_with_timeout-IsFramed,
}
pub mod Steps

module _ (service : Service) (env : VfsEnv) where
  adopt_children-IsFramed :
      (name : String) (items : List DriveItem) (x : Map String ℕ × Option (ℕ × DriveItem))
      (v : CoreOps)
      → IsFramed v (adopt_children service env name items x v).0
  unfolding adopt_children
  adopt_children-IsFramed name [] (children, found) v = IsFramed-refl v
  adopt_children-IsFramed name (item ∷ items) (children, found) v =
      let P : CoreOps × Map String ℕ × Option (ℕ × DriveItem) → Type 0 = λ r. IsFramed v r.0 in
      let w = (cache_item service env item v).0 in
      if_lem P (Store.is_tombstoned item.id v.world.store)
        (adopt_children-IsFramed name items (children, found) v)
        (IsFramed-trans v w _ (cache_item-IsFramed service env item v)
          (adopt_children-IsFramed name items _ w))

  keep_children-IsFramed :
      (parent_ino : ℕ) (children : Map String ℕ) (v : CoreOps)
      → IsFramed v (keep_children service env parent_ino children v)
  unfolding keep_children
  keep_children-IsFramed parent_ino children v =
      let w = (lookup_item service env parent_ino v).0 in
      let f = lookup_item-IsFramed service env parent_ino v in
      elim (Option-cases (lookup_item service env parent_ino v).1) [
        | inl e ↦ rw (e, keep_children) f
        | inr (item, e) ↦ rw (e, keep_children) (IsFramed-trans v w _ f (set_memory-IsFramed _ w))
      ]

  find_answered-IsFramed :
      (parent_ino : ℕ) (name : String) (r : CoreOps × VfsResult (List DriveItem))
      → IsFramed r.0 (find_answered service env parent_ino name r).0
  unfolding find_answered
  find_answered-IsFramed parent_ino name (v, failure e) = IsFramed-refl v
  find_answered-IsFramed parent_ino name (v, success items) =
      let (w, children, found) = adopt_children service env name items ([], none) v in
      IsFramed-trans v w _ (adopt_children-IsFramed name items ([], none) v)
        (keep_children-IsFramed parent_ino children w)

  find_on_server-IsFramed :
      (parent_ino : ℕ) (name : String) (v : CoreOps)
      → IsFramed v (find_on_server service env parent_ino name v).0
  unfolding find_on_server
  find_on_server-IsFramed parent_ino name v =
      let P : CoreOps × Option (ℕ × DriveItem) → Type 0 = λ r. IsFramed v r.0 in
      if_cases P v.offline (λ _. IsFramed-refl v)
        (λ online. elim (Option-cases (Inode.get_item_id parent_ino v.world.inodes)) [
          | inl e ↦ rw (e, find_on_server) (IsFramed-refl v)
          | inr (id, e) ↦
              let r =
                graph_with_timeout service env service.children
                  (Graph.list_children env.upload.drive_id id) v in
              rw (e, find_on_server)
                (IsFramed-trans v r.0 _
                  (graph_with_timeout-IsFramed service env service.children
                    (Graph.list_children env.upload.drive_id id) v online)
                  (find_answered-IsFramed parent_ino name r))
        ])

  find_stored-IsFramed :
      (parent_ino : ℕ) (name : String) (v : CoreOps)
      → IsFramed v (find_stored service env parent_ino name v).0
  unfolding find_stored
  find_stored-IsFramed parent_ino name v =
      elim (Option-cases (stored_by_name name (Store.get_children parent_ino v.world.store))) [
        | inl e ↦ rw (e, find_stored) (find_on_server-IsFramed parent_ino name v)
        | inr (item, e) ↦ rw (e, find_stored) (cache_item-IsFramed service env item v)
      ]

  -- A name is resolved without a change to the store, the pending writes, the disk cache or the open
  -- files; and offline without a call of the service.
  pub find_child-IsFramed :
      (parent_ino : ℕ) (name : String) (v : CoreOps)
      → IsFramed v (find_child service env parent_ino name v).0
  unfolding find_child
  find_child-IsFramed parent_ino name v =
      let (memory, children) = Memory.get_children env.upload.now parent_ino v.world.memory in
      let w = set_memory memory v in
      let f = set_memory-IsFramed memory v in
      elim (Option-cases (and_then children (child_by_name name))) [
        | inl e ↦
            rw (e, find_child) (IsFramed-trans v w _ f (find_stored-IsFramed parent_ino name w))
        | inr (ino, e) ↦
            let u = (lookup_item service env ino w).0 in
            let g = IsFramed-trans v w u f (lookup_item-IsFramed service env ino w) in
            elim (Option-cases (lookup_item service env ino w).1) [
              | inl q ↦
                  rw (e, q, find_child)
                    (IsFramed-trans v u _ g (find_stored-IsFramed parent_ino name u))
              | inr (item, q) ↦ rw (e, q, find_child) g
            ]
      ]
