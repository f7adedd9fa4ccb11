-- ===== src/Delta/Listed.antt =====
-- crates/carminedesktop-cache/src/sync.rs: what the loop of a delta sync takes from the answer.
use mathlib.Core.Path.{subst}
use carmine_desktop.Common.{
  ◌≡◌, refl, sym, ap, ◌∙◌, String, true, false, List, [], ◌∷◌, ◌++◌, arith, Option-cases, inl, inr,
  if_lem, if_cases, ◌==◌, string_eq, All, if◌then◌else◌, map,
}
use carmine_desktop.Common.Map
use carmine_desktop.Common.Map.{get-insert_self}
use carmine_desktop.Delta.{
  SyncEnv, Progress, DeletedItemInfo, allocate_if, deleted_info, invalidate_content, delta_deleted,
  delta_upserted, delta_item, delta_items, content_changed,
}
use carmine_desktop.Delta.Rows.{item_of}
use carmine_desktop.Inode
use carmine_desktop.Item.{DriveItem, parent_id}
use carmine_desktop.Store
use carmine_desktop.Store.{
  SqliteStore, delta_deletes, apply_delta, get_delta_token, get_item_by_id, delta_upserts,
  set_delta_token, purge_tombstones_older_than,
}

-- The ids that an answer reports as deleted, and the items that it reports as there and that were not
-- deleted here.
abbrev pub gone_ids : List DriveItem → List String
gone_ids [] = []
gone_ids (item ∷ items) =
    let rest = gone_ids items in if item.name == "" then item.id ∷ rest else rest

abbrev pub kept_items : SqliteStore → List DriveItem → List DriveItem
kept_items s [] = []
kept_items s (item ∷ items) =
    let rest = kept_items s items in
    if item.name == ""
    then rest
    else if Map.contains_key item.id s.tombstones
    then rest
    else item ∷ rest

abbrev pub ids_of : List DeletedItemInfo → List String
ids_of infos = map (λ info. info.id) infos

-- The loop leaves the store, and lists what it has seen of the answer.
pub record IsListed (s : SqliteStore) (items : List DriveItem) (p : Progress) : Type 0 where
  pub same : p.caches.store ≡ s
  pub reported : ids_of p.result.deleted_items ≡ gone_ids items
  pub deleted : p.deletes ≡ gone_ids items
  pub upserted : map item_of p.upserts ≡ kept_items s items

deleted_info-id : (id : String) (s : SqliteStore) → (deleted_info id s).0.id ≡ id
unfolding deleted_info
deleted_info-id id s = elim (Option-cases (get_item_by_id id s)) [
  | inl e ↦ rw (e, deleted_info) refl
  | inr (found, e) ↦ rw (e, deleted_info) refl
]

map-append {ℓ κ} :
    {A : Type ℓ} {B : Type κ} (f : A → B) (xs ys : List A) → map f (xs ++ ys) ≡ map f xs ++ map f ys
map-append f [] ys = refl
map-append f (x ∷ xs) ys = ap (λ l. f x ∷ l) (map-append f xs ys)

-- One more item at the end.
module _ (item : DriveItem) where
  gone_ids-snoc_gone :
      (seen : List DriveItem)
      → (item.name == "") ≡ true
      → gone_ids (seen ++ (item ∷ [])) ≡ gone_ids seen ++ (item.id ∷ [])
  gone_ids-snoc_gone [] h = ground (arith, h)
  gone_ids-snoc_gone (x ∷ seen) h = ground (arith, h, gone_ids-snoc_gone seen h)

  gone_ids-snoc :
      (seen : List DriveItem)
      → (item.name == "") ≡ false
      → gone_ids (seen ++ (item ∷ [])) ≡ gone_ids seen
  gone_ids-snoc [] h = ground (arith, h)
  gone_ids-snoc (x ∷ seen) h = ground (arith, h, gone_ids-snoc seen h)

  kept_items-snoc_gone :
      (s : SqliteStore) (seen : List DriveItem)
      → (item.name == "") ≡ true
      → kept_items s (seen ++ (item ∷ [])) ≡ kept_items s seen
  kept_items-snoc_gone s [] h = ground (arith, h)
  kept_items-snoc_gone s (x ∷ seen) h = ground (arith, h, kept_items-snoc_gone s seen h)

  kept_items-snoc_buried :
      (s : SqliteStore) (seen : List DriveItem)
      → (item.name == "") ≡ false
      → Map.contains_key item.id s.tombstones ≡ true
      → kept_items s (seen ++ (item ∷ [])) ≡ kept_items s seen
  kept_items-snoc_buried s [] h t = ground (arith, h, t)
  kept_items-snoc_buried s (x ∷ seen) h t = ground (arith, h, t, kept_items-snoc_buried s seen h t)

  kept_items-snoc :
      (s : SqliteStore) (seen : List DriveItem)
      → (item.name == "") ≡ false
      → Map.contains_key item.id s.tombstones ≡ false
      → kept_items s (seen ++ (item ∷ [])) ≡ kept_items s seen ++ (item ∷ [])
  kept_items-snoc s [] h t = ground (arith, h, t)
  kept_items-snoc s (x ∷ seen) h t = ground (arith, h, t, kept_items-snoc s seen h t)

pub kept_items-All :
    (s : SqliteStore) (items : List DriveItem)
    → All (λ item. Map.contains_key item.id s.tombstones ≡ false) (kept_items s items)
kept_items-All s [] = tt
kept_items-All s (item ∷ items) =
    let P : List DriveItem → Type 0 =
      All (λ (x : DriveItem). Map.contains_key x.id s.tombstones ≡ false) in
    let rest = kept_items-All s items in
    if_lem P (item.name == "") rest
      (if_cases P (Map.contains_key item.id s.tombstones) (λ _. rest) (λ t. (t, rest)))

module _ (env : SyncEnv) (s : SqliteStore) (seen : List DriveItem) (item : DriveItem) where
  delta_upserted-IsListed :
      (p : Progress)
      → (item.name == "") ≡ false
      → Map.contains_key item.id s.tombstones ≡ false
      → IsListed s seen p
      → IsListed s (seen ++ (item ∷ [])) (delta_upserted env item p)
  unfolding delta_upserted invalidate_content
  delta_upserted-IsListed p named alive h =
      let (inodes, inode) = Inode.allocate item.id p.caches.inodes in
      let (inodes', parent_inode) = allocate_if (parent_id item) inodes in
      let p' : Progress = record p { caches = record p.caches { inodes = inodes' } } in
      let q : Progress =
        if content_changed item p.caches.store then invalidate_content env inode item p' else p' in
      let k : IsListed s seen q =
        if_lem (IsListed s seen) (content_changed item p.caches.store)
          (record {
            same = h.same;
            reported = h.reported;
            deleted = h.deleted;
            upserted = h.upserted;
          })
          (record {
            same = h.same;
            reported = h.reported;
            deleted = h.deleted;
            upserted = h.upserted;
          }) in
      record {
        same = k.same;
        reported = k.reported ∙ sym (gone_ids-snoc item seen named);
        deleted = k.deleted ∙ sym (gone_ids-snoc item seen named);
        upserted =
            map-append item_of q.upserts ((inode, item, parent_inode) ∷ [])
            ∙ ap (λ l. l ++ (item ∷ [])) k.upserted
            ∙ sym (kept_items-snoc item s seen named alive);
      }

  delta_deleted-IsListed :
      (p : Progress)
      → (item.name == "") ≡ true
      → IsListed s seen p
      → IsListed s (seen ++ (item ∷ [])) (delta_deleted env item p)
  unfolding delta_deleted
  delta_deleted-IsListed p unnamed h =
      let info = (deleted_info item.id p.caches.store).0 in
      record {
        same = h.same;
        reported =
            map-append (λ (i : DeletedItemInfo). i.id) p.result.deleted_items (info ∷ [])
            ∙ cc (h.reported, deleted_info-id item.id p.caches.store)
            ∙ sym (gone_ids-snoc_gone item seen unnamed);
        deleted =
            ap (λ l. l ++ (item.id ∷ [])) h.deleted ∙ sym (gone_ids-snoc_gone item seen unnamed);
        upserted = h.upserted ∙ sym (kept_items-snoc_gone item s seen unnamed);
      }

  delta_item-IsListed :
      (p : Progress) → IsListed s seen p → IsListed s (seen ++ (item ∷ [])) (delta_item env item p)
  unfolding delta_item Store.is_tombstoned
  delta_item-IsListed p h =
      let P : Progress → Type 0 = IsListed s (seen ++ (item ∷ [])) in
      if_cases P (item.name == "") (λ unnamed. delta_deleted-IsListed p unnamed h)
        (λ named.
          if_cases P (Store.is_tombstoned item.id p.caches.store)
            (λ t.
              let buried =
                ap (λ (x : SqliteStore). Map.contains_key item.id x.tombstones) (sym h.same) ∙ t in
              record {
                same = h.same;
                reported = h.reported ∙ sym (gone_ids-snoc item seen named);
                deleted = h.deleted ∙ sym (gone_ids-snoc item seen named);
                upserted = h.upserted ∙ sym (kept_items-snoc_buried item s seen named buried);
              })
            (λ t.
              delta_upserted-IsListed p named
                (ap (λ (x : SqliteStore). Map.contains_key item.id x.tombstones) (sym h.same) ∙ t)
                h))

snoc-append {ℓ} : {A : Type ℓ} (xs ys : List A) (x : A) → (xs ++ (x ∷ [])) ++ ys ≡ xs ++ (x ∷ ys)
snoc-append [] ys x = refl
snoc-append (z ∷ xs) ys x = ap (λ l. z ∷ l) (snoc-append xs ys x)

append-nil {ℓ} : {A : Type ℓ} (xs : List A) → xs ++ [] ≡ xs
append-nil [] = refl
append-nil (x ∷ xs) = ap (λ l. x ∷ l) (append-nil xs)

pub delta_items-IsListed :
    (env : SyncEnv) (s : SqliteStore) (seen items : List DriveItem) (p : Progress)
    → IsListed s seen p
    → IsListed s (seen ++ items) (delta_items env items p)
unfolding delta_items
delta_items-IsListed env s seen [] p h = subst (λ l. IsListed s l p) (sym (append-nil seen)) h
delta_items-IsListed env s seen (item ∷ items) p h =
    subst (λ l. IsListed s l (delta_items env items (delta_item env item p)))
      (snoc-append seen items item)
      (delta_items-IsListed env s (seen ++ (item ∷ [])) items (delta_item env item p)
        (delta_item-IsListed env s seen item p h))
