-- ===== src/Vfs/Lookup.antt =====
-- crates/carminedesktop-vfs/src/core_ops.rs: names resolved in a folder. Memory is asked first, then
-- the store, then the server. A hash map's entries are taken in the order of the model's list.
use carmine_desktop.Common.{
  ℕ, String, Bool, false, not, Option, none, some, List, [], ◌∷◌, if◌then◌else◌, nat_eq, string_eq,
  option_beq, and_then,
}
use carmine_desktop.Common.Map
use carmine_desktop.Common.Map.{Map}
use carmine_desktop.Graph.{Service}
use carmine_desktop.Graph
use carmine_desktop.Inode
use carmine_desktop.Inode.{root_inode}
use carmine_desktop.Item.{DriveItem}
use carmine_desktop.Memory
use carmine_desktop.Names.{names_match}
use carmine_desktop.Store
use carmine_desktop.Vfs.{
  CoreOps, VfsEnv, VfsResult, success, failure, set_memory, set_store, graph_with_timeout,
  cache_item, lookup_item,
}

unfoldable pub child_by_name : String → Map String ℕ → Option ℕ
unfolding names_match
child_by_name name [] = none
child_by_name name ((k, ino) ∷ children) =
    let rest = child_by_name name children in if names_match k name then some ino else rest

unfoldable pub stored_by_name : String → List (ℕ × DriveItem) → Option DriveItem
unfolding names_match
stored_by_name name [] = none
stored_by_name name ((_, item) ∷ children) =
    let rest = stored_by_name name children in
    if names_match item.name name then some item else rest

module _ (service : Service) (env : VfsEnv) where
  -- The loop over the server's answer: an item that was deleted here is skipped, the others come
  -- into memory, and the first that matches is found.
  unfoldable pub adopt_children :
      String
      → List DriveItem
      → Map String ℕ × Option (ℕ × DriveItem)
      → CoreOps
      → CoreOps × Map String ℕ × Option (ℕ × DriveItem)
  unfolding cache_item names_match
  adopt_children name [] (children, found) v = (v, children, found)
  adopt_children name (item ∷ items) (children, found) v =
      let (v', ino) = cache_item service env item v in
      let skip = adopt_children name items (children, found) v in
      let found' : Option (ℕ × DriveItem) = elim found [
        | some x ↦ some x
        | none ↦ if names_match item.name name then some (ino, item) else none
      ] in
      let take = adopt_children name items (Map.insert item.name ino children, found') v' in
      if Store.is_tombstoned item.id v.world.store then skip else take

  -- `if let Some(parent_item) = self.lookup_item(parent_ino) { … insert_with_children … }`
  unfoldable pub keep_children : ℕ → Map String ℕ → CoreOps → CoreOps
  unfolding lookup_item set_memory
  keep_children parent_ino children v =
      let (v', parent) = lookup_item service env parent_ino v in
      elim parent [
        | none ↦ v'
        | some item ↦
            set_memory
              (Memory.insert_with_children env.upload.now parent_ino item children v'.world.memory)
              v'
      ]

  unfoldable pub find_answered :
      ℕ → String → CoreOps × VfsResult (List DriveItem) → CoreOps × Option (ℕ × DriveItem)
  unfolding adopt_children keep_children
  find_answered parent_ino name (v, failure e) = (v, none)
  find_answered parent_ino name (v, success items) =
      let (v', children, found) = adopt_children name items ([], none) v in
      (keep_children parent_ino children v', found)

  unfoldable pub find_on_server : ℕ → String → CoreOps → CoreOps × Option (ℕ × DriveItem)
  unfolding graph_with_timeout find_answered
  find_on_server parent_ino name v =
      if v.offline then (v, none) else elim (Inode.get_item_id parent_ino v.world.inodes) [
        | none ↦ (v, none)
        | some parent_item_id ↦ find_answered parent_ino name (
            graph_with_timeout service env service.children
              (Graph.list_children env.upload.drive_id parent_item_id) v)
      ]

  unfoldable pub find_stored : ℕ → String → CoreOps → CoreOps × Option (ℕ × DriveItem)
  unfolding cache_item find_on_server
  find_stored parent_ino name v =
      elim (stored_by_name name (Store.get_children parent_ino v.world.store)) [
        | some item ↦ let (v', ino) = cache_item service env item v in (v', some (ino, item))
        | none ↦ find_on_server parent_ino name v
      ]

  unfoldable pub find_child : ℕ → String → CoreOps → CoreOps × Option (ℕ × DriveItem)
  unfolding set_memory lookup_item find_stored
  find_child parent_ino name v =
      let (memory, children) = Memory.get_children env.upload.now parent_ino v.world.memory in
      let v' = set_memory memory v in
      elim (and_then children (child_by_name name)) [
        | none ↦ find_stored parent_ino name v'
        | some ino ↦
            let (v'', found) = lookup_item service env ino v' in
            elim found [
              | some item ↦ (v'', some (ino, item))
              | none ↦ find_stored parent_ino name v''
            ]
      ]

  -- The children in memory whose item is known.
  unfoldable pub lookup_all : Map String ℕ → CoreOps → CoreOps × List (ℕ × DriveItem)
  unfolding lookup_item
  lookup_all [] v = (v, [])
  lookup_all ((_, ino) ∷ children) v =
      let (v', found) = lookup_item service env ino v in
      let (v'', rest) = lookup_all children v' in
      (v'', elim found [ none ↦ rest | some item ↦ (ino, item) ∷ rest ])

  unfoldable pub cache_all : List (ℕ × DriveItem) → CoreOps → CoreOps × List (ℕ × DriveItem)
  unfolding cache_item
  cache_all [] v = (v, [])
  cache_all ((_, item) ∷ children) v =
      let (v', ino) = cache_item service env item v in
      let (v'', rest) = cache_all children v' in (v'', (ino, item) ∷ rest)

  -- The server's items, less those deleted here, into memory and the store.
  unfoldable pub persist_children :
      ℕ → List DriveItem → Map String ℕ → CoreOps → CoreOps × Map String ℕ × List (ℕ × DriveItem)
  unfolding cache_item set_store
  persist_children parent_ino [] children v = (v, children, [])
  persist_children parent_ino (item ∷ items) children v =
      let (v', ino) = cache_item service env item v in
      let store =
        (Store.upsert_item ino env.upload.drive_id item (some parent_ino) v'.world.store).0 in
      let skip = persist_children parent_ino items children v in
      let (v'', children', rest) =
        persist_children parent_ino items (Map.insert item.name ino children)
          (set_store store v') in
      if Store.is_tombstoned item.id v.world.store
      then skip
      else (v'', children', (ino, item) ∷ rest)

  unfoldable pub list_answered :
      ℕ → CoreOps × VfsResult (List DriveItem) → CoreOps × List (ℕ × DriveItem)
  unfolding persist_children keep_children
  list_answered parent_ino (v, failure e) = (v, [])
  list_answered parent_ino (v, success items) =
      let (v', children, result) = persist_children parent_ino items [] v in
      (keep_children parent_ino children v', result)

  unfoldable pub list_children : ℕ → CoreOps → CoreOps × List (ℕ × DriveItem)
  unfolding set_memory lookup_all cache_all graph_with_timeout list_answered
  list_children parent_ino v =
      let (memory, in_memory) = Memory.get_children env.upload.now parent_ino v.world.memory in
      let v' = set_memory memory v in
      elim in_memory [
        | some children ↦ lookup_all children v'
        | none ↦ elim (Store.get_children parent_ino v'.world.store) [
          | x ∷ stored ↦ cache_all (x ∷ stored) v'
          | [] ↦
              if v'.offline then (v', []) else elim (Inode.get_item_id parent_ino v'.world.inodes) [
                | none ↦ (v', [])
                | some item_id ↦ list_answered parent_ino (
                    graph_with_timeout service env service.children
                      (Graph.list_children env.upload.drive_id item_id) v')
              ]
        ]
      ]

  -- The walk of `resolve_path` down the components.
  unfoldable pub walk_down : ℕ → List String → CoreOps → CoreOps × Option ℕ
  unfolding find_child
  walk_down ino [] v = (v, some ino)
  walk_down ino (component ∷ components) v =
      let (v', found) = find_child ino component v in
      elim found [ none ↦ (v', none) | some x ↦ walk_down x.0 components v' ]

  unfoldable pub resolve_path : List String → CoreOps → CoreOps × Option (ℕ × DriveItem)
  unfolding walk_down lookup_item
  resolve_path components v =
      let (v', reached) = walk_down root_inode components v in
      elim reached [
        | none ↦ (v', none)
        | some ino ↦
            let (v'', found) = lookup_item service env ino v' in
            (v'', elim found [ none ↦ none | some item ↦ some (ino, item) ])
      ]

  -- The item has another etag on the server than here.
  unfoldable pub has_server_conflict : DriveItem → CoreOps → CoreOps × Bool
  unfolding graph_with_timeout
  has_server_conflict item v = if v.offline then (v, false) else elim item.etag [
    | none ↦ (v, false)
    | some cached_etag ↦
        let (v', answer) =
          graph_with_timeout service env service.server (Graph.get_item env.upload.drive_id item.id)
            v in
        elim answer [
          | success server_item ↦ (v', not (option_beq server_item.etag (some cached_etag)))
          | failure e ↦ (v', false)
        ]
  ]
