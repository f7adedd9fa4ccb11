-- ===== src/Delta/Recorded.antt =====
-- crates/carminedesktop-cache/src/sync.rs: what a delta sync leaves in the store.
use mathlib.Core.List.{Mem}
use mathlib.Core.Path.{subst}
use carmine_desktop.Common.{
  ℕ, ◌≡◌, refl, sym, ap, ◌∙◌, ◌⊎◌, String, false, Option, some, none, List, [], ◌∷◌, arith,
  Option-cases, inl, inr, if_cases, ◌==◌, string_eq, All, All-map, unwrap_or, map,
}
use carmine_desktop.Common.Map
use carmine_desktop.Common.Map.{get-insert_self}
use carmine_desktop.Delta.{
  Caches, SyncEnv, Progress, DeltaSyncResult, delta_items, record_delta, finish_delta,
  apply_response, purged, run_delta_sync, begin, delta_call, tombstone_secs,
}
use carmine_desktop.Delta.Listed.{
  gone_ids, kept_items, ids_of, IsListed, kept_items-All, delta_items-IsListed,
}
use carmine_desktop.Delta.Rows.{
  HasRow, item_of, delta_upserts-All, delta_deletes-HasRow, delta_deletes-All, All-Mem,
}
use carmine_desktop.Graph.{Service, DeltaResponse, delta_query}
use carmine_desktop.Item.{DriveItem, Result, ok, err, Error, cache}
use carmine_desktop.Store
use carmine_desktop.Store.{
  SqliteStore, delta_deletes, apply_delta, get_delta_token, get_item_by_id, delta_upserts,
  set_delta_token, purge_tombstones_older_than,
}

abbrev pub new_token : DeltaResponse → String
new_token response = unwrap_or response.delta_link ""

-- The rows and the token of the drive are those of before.
abbrev pub IsUnchanged : String → SqliteStore → SqliteStore → Type 0
IsUnchanged drive_id s s' =
    (s'.items ≡ s.items) × (get_delta_token drive_id s' ≡ get_delta_token drive_id s)

-- The answer is in the store: its token, no row for what is gone, and for every other item a row that
-- holds a report of it.
abbrev pub HoldsAnswer : String → SqliteStore → DeltaResponse → SqliteStore → Type 0
HoldsAnswer drive_id s response s' =
    (get_delta_token drive_id s' ≡ some (new_token response))
    × All (λ id. Map.get id s'.items ≡ none) (gone_ids response.value)
    × All
        (λ item.
          All (λ id. ¬ (id ≡ item.id)) (gone_ids response.value)
          → HasRow (λ x. Mem x (kept_items s response.value)) s'.items item.id)
        (kept_items s response.value)

-- The store before, the store without old tombstones, the service's answer and the sync's result.
abbrev pub IsRecorded :
    String
    → SqliteStore
    → SqliteStore
    → Result DeltaResponse
    → Caches × Result DeltaSyncResult
    → Type 0
IsRecorded drive_id s p answer (c, err e) =
    IsUnchanged drive_id s c.store
    × ((answer ≡ err e)
        ⊎ ((response : DeltaResponse) × (answer ≡ ok response) × ¬ (new_token response ≡ "")))
IsRecorded drive_id s p answer (c, ok r) =
    (response : DeltaResponse) × (answer ≡ ok response)
    × (ids_of r.deleted_items ≡ gone_ids response.value)
    × ((new_token response ≡ "") × IsUnchanged drive_id s c.store
        ⊎ (¬ (new_token response ≡ "")) × HoldsAnswer drive_id p response c.store)

-- The transaction is rolled back, or the upserts have given rows, of which the deletions take some.
apply_delta_cases :
    (drive_id : String) (items : List (ℕ × DriveItem × Option ℕ)) (ids : List String)
    (token : String) (s : SqliteStore)
    → ((e : Error) × (apply_delta drive_id items ids token s ≡ (s, err e)))
      ⊎ ((rows : Map.Map String Store.Row) × (delta_upserts drive_id s.tombstones items s.items
            ≡ some rows)
          × (apply_delta drive_id items ids token s ≡ (
            set_delta_token drive_id token (delta_deletes ids (record s { items = rows })),
            ok tt,
          )))
unfolding apply_delta
apply_delta_cases drive_id items ids token s =
    elim (Option-cases (delta_upserts drive_id s.tombstones items s.items)) [
      | inl e ↦ inl (cache "upsert in delta failed", rw (e, apply_delta) refl)
      | inr (rows, e) ↦ inr (rows, e, rw (e, apply_delta) refl)
    ]

-- The rows of the transaction.
upserted-HoldsAnswer :
    (drive_id : String) (s : SqliteStore) (response : DeltaResponse)
    (ups : List (ℕ × DriveItem × Option ℕ)) (rows : Map.Map String Store.Row)
    → map item_of ups ≡ kept_items s response.value
    → delta_upserts drive_id s.tombstones ups s.items ≡ some rows
    → HoldsAnswer drive_id s response (
        set_delta_token drive_id
          (new_token response)
          (delta_deletes (gone_ids response.value) (record s { items = rows })))
unfolding set_delta_token get_delta_token
upserted-HoldsAnswer drive_id s response ups rows kept h =
    let after : SqliteStore = record s { items = rows } in
    let gone = gone_ids response.value in
    let items = kept_items s response.value in
    let P : DriveItem → Type 0 = λ x. Mem x items in
    let all =
      delta_upserts-All P drive_id s.tombstones ups s.items rows h
        (subst (All P) (sym kept) (All-Mem items))
        (subst (All (λ (x : DriveItem). Map.contains_key x.id s.tombstones ≡ false)) (sym kept)
          (kept_items-All s response.value)) in
    (
      get-insert_self drive_id (new_token response) (delta_deletes gone after).delta_tokens,
      delta_deletes-All gone after,
      All-map (λ (x : DriveItem). HasRow P rows x.id)
          (λ (x : DriveItem).
            All (λ id. ¬ (id ≡ x.id)) gone → HasRow P (delta_deletes gone after).items x.id)
          (λ x row ne. delta_deletes-HasRow P gone after x.id ne row) items
          (subst (All (λ (x : DriveItem). HasRow P rows x.id)) kept all),
    )

record_delta-IsRecorded :
    (env : SyncEnv) (s : SqliteStore) (response : DeltaResponse) (p : Progress)
    → IsListed s response.value p
    → IsRecorded env.drive_id s s (ok response) (record_delta env response.delta_link p)
unfolding record_delta finish_delta
record_delta-IsRecorded env s response p h =
    let token = new_token response in
    let gone = gone_ids response.value in
    let d = env.drive_id in
    let same : IsUnchanged d s p.caches.store =
      (ap (λ (t : SqliteStore). t.items) h.same, ap (get_delta_token d) h.same) in
    let now_gone : apply_delta d p.upserts p.deletes token p.caches.store
        ≡ apply_delta d p.upserts gone token s =
      ap (λ ids. apply_delta d p.upserts ids token p.caches.store) h.deleted
      ∙ ap (apply_delta d p.upserts gone token) h.same in
    let P : SqliteStore × Result (Unit {0}) → Type 0 =
      λ r. IsRecorded d s s (ok response) (finish_delta p r) in
    if_cases (IsRecorded d s s (ok response)) (token == "")
      (λ e. (response, refl, h.reported, inl ((string_eq.beq_iff token "").0 e, same)))
      (λ e.
        let ne : ¬ (token ≡ "") = λ q. ground (arith, string_eq.beq_iff token "", q, e) in
        elim (apply_delta_cases d p.upserts gone token s) [
          | inl (x, q) ↦ subst P (sym (now_gone ∙ q)) ((refl, refl), inr (response, refl, ne))
          | inr (rows, u, q) ↦ subst P (sym (now_gone ∙ q)) (
            response,
            refl,
            h.reported,
            inr (ne, upserted-HoldsAnswer d s response p.upserts rows h.upserted u),
          )
        ])

apply_response-IsRecorded :
    (env : SyncEnv) (c : Caches) (answer : Result DeltaResponse)
    → IsRecorded env.drive_id c.store c.store answer (apply_response env c answer)
unfolding apply_response begin
apply_response-IsRecorded env c (err e) = ((refl, refl), inl refl)
apply_response-IsRecorded env c (ok response) =
    record_delta-IsRecorded env c.store response (delta_items env response.value (begin c)) (
      delta_items-IsListed env c.store [] response.value (begin c)
        (record { same = refl; reported = refl; deleted = refl; upserted = refl }))

-- A purge of tombstones changes neither rows nor tokens.
IsRecorded-purged :
    (drive_id : String) (now secs : ℕ) (s : SqliteStore) (answer : Result DeltaResponse)
    (x : Caches × Result DeltaSyncResult)
    → IsRecorded drive_id
        (purge_tombstones_older_than now secs s)
        (purge_tombstones_older_than now secs s)
        answer
        x
    → IsRecorded drive_id s (purge_tombstones_older_than now secs s) answer x
unfolding purge_tombstones_older_than get_delta_token
IsRecorded-purged drive_id now secs s answer (c, ok r) h = h
IsRecorded-purged drive_id now secs s answer (c, err e) h = h

-- A sync asks for the changes since the drive's token. If it returns an error, this is the service's
-- or that of the transaction for an answer with a token, and the rows and the token are as they were.
-- If not, the service has answered and the deleted items reported are those of the answer, in its
-- order; where the answer has no token, the rows and the token are as they were; where it has one, the
-- store holds it, has no row for what is deleted, and has for every other item of the answer that has
-- no tombstone of the last 300 seconds a row that holds a report of the answer, unless the answer also
-- reports its id as deleted.
pub run_delta_sync-IsRecorded :
    (env : SyncEnv) (service : Service) (c : Caches)
    → IsRecorded env.drive_id c.store
        (purge_tombstones_older_than env.seconds tombstone_secs c.store)
        (service.delta c.calls (delta_query env.drive_id (get_delta_token env.drive_id c.store)))
        (run_delta_sync env service c)
unfolding run_delta_sync purged get_delta_token purge_tombstones_older_than
run_delta_sync-IsRecorded env service c =
    let p = purged env c in
    IsRecorded-purged env.drive_id env.seconds tombstone_secs c.store
      (service.delta p.calls (delta_call env p)) (run_delta_sync env service c)
      (apply_response-IsRecorded env (record p { calls = delta_call env p ∷ p.calls })
        (service.delta p.calls (delta_call env p)))
