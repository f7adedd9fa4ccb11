-- ===== src/Vfs/Frame/Steps.antt =====
-- crates/carminedesktop-vfs/src/core_ops.rs: what the steps of a lookup leave as it is.
use carmine_desktop.Common.{
  ℕ, zero, suc, ◌≡◌, refl, ◌∙◌, String, Bool, true, false, List, [], ◌∷◌, arith, Option-cases,
  Bool-cases, inl, inr, if_lem, ◌==◌, nat_eq, string_eq, and_then,
}
use carmine_desktop.Graph.{Call, Service}
use carmine_desktop.Inode
use carmine_desktop.Inode.{root_inode}
use carmine_desktop.Item.{DriveItem, parent_id, Result, ok, err}
use carmine_desktop.Memory
use carmine_desktop.Store
use carmine_desktop.Store.{SqliteStore}
use carmine_desktop.Vfs.{
  CoreOps, VfsEnv, set_memory, set_inodes, cache_item, lookup_stored, lookup_item, path_segments,
  display_path_under, graph_call, timed_result, graph_with_timeout, set_offline, is_network,
}
use carmine_desktop.Memory.{MemoryCache}

-- The store, the pending writes, the disk cache and the open files are as before; and offline no
-- call is made.
pub record IsFramed (v v' : CoreOps) : Type 0 where
  pub store : v'.world.store ≡ v.world.store
  pub writeback : v'.world.writeback ≡ v.world.writeback
  pub disk : v'.disk ≡ v.disk
  pub open_files : v'.open_files ≡ v.open_files
  pub quiet : v.offline ≡ true → v'.world.calls ≡ v.world.calls
  pub still : v.offline ≡ true → v'.offline ≡ true

pub IsFramed-refl : (v : CoreOps) → IsFramed v v
IsFramed-refl v = record {
  store = refl;
  writeback = refl;
  disk = refl;
  open_files = refl;
  quiet = λ h. refl;
  still = λ h. h;
}

pub IsFramed-trans : (a b c : CoreOps) → IsFramed a b → IsFramed b c → IsFramed a c
IsFramed-trans a b c p q = record {
  store = q.store ∙ p.store;
  writeback = q.writeback ∙ p.writeback;
  disk = q.disk ∙ p.disk;
  open_files = q.open_files ∙ p.open_files;
  quiet = λ h. q.quiet (p.still h) ∙ p.quiet h;
  still = λ h. q.still (p.still h);
}

pub set_memory-IsFramed : (m : MemoryCache) (v : CoreOps) → IsFramed v (set_memory m v)
unfolding set_memory
set_memory-IsFramed m v = record {
  store = refl;
  writeback = refl;
  disk = refl;
  open_files = refl;
  quiet = λ h. refl;
  still = λ h. h;
}

set_inodes-IsFramed : (t : Inode.InodeTable) (v : CoreOps) → IsFramed v (set_inodes t v)
unfolding set_inodes
set_inodes-IsFramed t v = record {
  store = refl;
  writeback = refl;
  disk = refl;
  open_files = refl;
  quiet = λ h. refl;
  still = λ h. h;
}

set_offline-IsFramed : (v w : CoreOps) → IsFramed v w → IsFramed v (set_offline w)
unfolding set_offline
set_offline-IsFramed v w f = record {
  store = f.store;
  writeback = f.writeback;
  disk = f.disk;
  open_files = f.open_files;
  quiet = f.quiet;
  still = λ h. refl;
}

timed_result-IsFramed :
    {A : Type 0} {v : CoreOps} (late : Bool) (w : CoreOps) (answer : Result A)
    → IsFramed v w
    → IsFramed v (timed_result late (w, answer)).0
unfolding timed_result
timed_result-IsFramed {v} true w answer f = set_offline-IsFramed v w f
timed_result-IsFramed {v} false w (ok a) f = f
timed_result-IsFramed {v} false w (err e) f =
    if_lem (IsFramed v) (is_network e) (set_offline-IsFramed v w f) f

module _ (service : Service) (env : VfsEnv) where
  pub cache_item-IsFramed :
      (item : DriveItem) (v : CoreOps) → IsFramed v (cache_item service env item v).0
  unfolding cache_item
  cache_item-IsFramed item v =
      let (inodes, ino) = Inode.allocate item.id v.world.inodes in
      IsFramed-trans v (set_inodes inodes v) _ (set_inodes-IsFramed inodes v)
        (set_memory-IsFramed _ (set_inodes inodes v))

  lookup_stored-IsFramed : (ino : ℕ) (v : CoreOps) → IsFramed v (lookup_stored service env ino v).0
  unfolding lookup_stored
  lookup_stored-IsFramed ino v =
      elim (Option-cases (
        and_then (Inode.get_item_id ino v.world.inodes)
          (λ item_id. Store.get_item_by_id item_id v.world.store))) [
            | inl e ↦ rw (e, lookup_stored) (IsFramed-refl v)
            | inr (found, e) ↦ rw (e, lookup_stored) (set_memory-IsFramed _ v)
          ]

  pub lookup_item-IsFramed : (ino : ℕ) (v : CoreOps) → IsFramed v (lookup_item service env ino v).0
  unfolding lookup_item
  lookup_item-IsFramed ino v =
      let (memory, found) = Memory.get env.upload.now ino v.world.memory in
      elim (Option-cases found) [
        | inl e ↦
            rw (e, lookup_item)
              (IsFramed-trans v (set_memory memory v) _ (set_memory-IsFramed memory v)
                (lookup_stored-IsFramed ino (set_memory memory v)))
        | inr (item, e) ↦ rw (e, lookup_item) (set_memory-IsFramed memory v)
      ]

  path_segments-IsFramed :
      (safety cur : ℕ) (v : CoreOps) (segments : List String)
      → IsFramed v (path_segments service env safety cur v segments).0
  unfolding path_segments
  path_segments-IsFramed zero cur v segments = IsFramed-refl v
  path_segments-IsFramed (suc safety) cur v segments = elim (Bool-cases (cur == root_inode)) [
    | inl root ↦ rw (root, path_segments) (IsFramed-refl v)
    | inr below ↦
        let w = (lookup_item service env cur v).0 in
        let f = lookup_item-IsFramed cur v in
        elim (Option-cases (lookup_item service env cur v).1) [
          | inl e ↦ rw (below, e, path_segments) f
          | inr (item, e) ↦
              elim (Option-cases
                (and_then (parent_id item) (λ pid. Inode.get_inode pid w.world.inodes))) [
                  | inl q ↦ rw (below, e, q, path_segments) f
                  | inr (pino, q) ↦
                      rw (below, e, q, path_segments)
                        (IsFramed-trans v w _ f
                          (path_segments-IsFramed safety pino w (item.name ∷ segments)))
                ]
        ]
  ]

  pub display_path_under-IsFramed :
      (parent_ino : ℕ) (name : String) (v : CoreOps)
      → IsFramed v (display_path_under service env parent_ino name v).0
  unfolding display_path_under
  display_path_under-IsFramed parent_ino name v = path_segments-IsFramed 256 parent_ino v []

  pub graph_with_timeout-IsFramed :
      {A : Type 0} (answer : List Call → Call → Result A) (call : Call) (v : CoreOps)
      → v.offline ≡ false
      → IsFramed v (graph_with_timeout service env answer call v).0
  unfolding graph_with_timeout graph_call
  graph_with_timeout-IsFramed answer call v online =
      timed_result-IsFramed (service.is_late v.world.calls call) _ (answer v.world.calls call)
        (record {
          store = refl;
          writeback = refl;
          disk = refl;
          open_files = refl;
          quiet = λ h. ground (arith, online, h);
          still = λ h. h;
        })
