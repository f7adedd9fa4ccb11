-- ===== src/Pending/Saved.antt =====
-- crates/carminedesktop-vfs/src/pending.rs: no pending content is lost by a recovery.
use carmine_desktop.Common.{
  ℕ, ◌≡◌, ◌≢◌, refl, ap, sym, ◌∙◌, ◌⊎◌, String, Bool, false, Option, none, some, List, [], ◌∷◌,
  arith, Option-cases, Bool-cases, inl, inr, if_lem, ◌==◌, string_eq, pair_eq, All, length, ltb,
  if◌then◌else◌, some_inj,
}
use carmine_desktop.Common.Map
use carmine_desktop.Common.Map.{get-insert_self, get-insert_ne}
use carmine_desktop.Graph.{Call, Server, upload_call, upload_small, small_file_limit}
use carmine_desktop.Item.{DriveItem, Result, ok, err}
use carmine_desktop.Pending.{
  Recovery, recovery_file, RecoveryIo, resolve_upload_params, is_local, remove_entry,
  save_to_recovery, conclude_upload, perform_upload, recover_single, recover_all,
  recover_pending_writes,
}
use carmine_desktop.Upload.Safe.{uploaded, is_ok, IsSaved}
use carmine_desktop.Writeback.{Bytes, read, list_pending}
use carmine_desktop.Writeback.Encoding.{has_escape}
use carmine_desktop.Writeback.Reads.{read-remove_ne}

-- A call that the server has accepted carried the content.
abbrev pub IsAccepted : Server → String → Bytes → List Call → Type 0
IsAccepted server d content [] = ⊥
IsAccepted server d content (call ∷ calls) =
    IsSaved server d content (call ∷ calls) ⊎ IsAccepted server d content calls

-- The content of an entry is pending, accepted by the server or in its file of the recovery folder.
abbrev pub IsKept : Server → String → String → String → Bytes → Recovery → Type 0
IsKept server dir d i content r =
    (read d i r.writeback ≡ some content)
    ⊎ (IsAccepted server d content r.calls
        ⊎ (Map.get (dir, recovery_file i) r.recovered ≡ some content))

-- None of the entries is saved in a file of the name.
abbrev pub HasNone : String → List (String × String) → Type 0
HasNone name entries = All (λ k. ¬ (recovery_file k.1 ≡ name)) entries

-- At most one of the entries is.
abbrev pub HasOne : String → List (String × String) → Type 0
HasOne name [] = Unit
HasOne name (k ∷ entries) =
    (¬ (recovery_file k.1 ≡ name)) × HasOne name entries ⊎ HasNone name entries

module _ (server : Server) (io : RecoveryIo) (dir d i : String) (content : Bytes)
    (plain : has_escape i ≡ false) where
  abbrev IsHeld : Recovery → Type 0
  IsHeld r = IsKept server dir d i content r

  abbrev IsLogged : Recovery → Type 0
  IsLogged r =
      IsAccepted server d content r.calls
      ⊎ (Map.get (dir, recovery_file i) r.recovered ≡ some content)

  -- An entry may be removed if it is another or its content is elsewhere.
  remove_entry-IsHeld :
      (e j : String) (r : Recovery)
      → has_escape j ≡ false
      → (e ≡ d → j ≡ i → IsLogged r)
      → IsHeld r
      → IsHeld (remove_entry server io e j r)
  unfolding remove_entry
  remove_entry-IsHeld e j r h logged (inr done) = inr done
  remove_entry-IsHeld e j r h logged (inl pending) = elim (Bool-cases (e == d)) [
    | inr other ↦ inl (
        read-remove_ne e j d i h plain (λ p q. ground (arith, string_eq.beq_iff e d, p, other))
          r.writeback io.removes
        ∙ pending)
    | inl drive ↦ elim (Bool-cases (j == i)) [
      | inl item ↦ inr (logged ((string_eq.beq_iff e d).0 drive) ((string_eq.beq_iff j i).0 item))
      | inr other ↦ inl (
          read-remove_ne e j d i h plain (λ p q. ground (arith, string_eq.beq_iff j i, q, other))
            r.writeback io.removes
          ∙ pending)
    ]
  ]

  -- What an entry holds is the content if it is the one in question, or that is elsewhere.
  held_content :
      (e j : String) (r : Recovery) (c : Option Bytes)
      → read e j r.writeback ≡ c
      → IsHeld r
      → e ≡ d
      → j ≡ i
      → (c ≡ some content) ⊎ IsLogged r
  held_content e j r c h (inr done) p q = inr done
  held_content e j r c h (inl pending) p q = inl (cc (h, pending, p, q))

  -- The logs only grow, but for a file that another one replaces.
  IsLogged-saved :
      (r : Recovery) (j : String) (c : Bytes) (m : List (String × String × ℕ))
      → ¬ (recovery_file j ≡ recovery_file i)
      → IsLogged r
      → IsLogged
          (record r { recovered = Map.insert (dir, recovery_file j) c r.recovered; manifest = m })
  IsLogged-saved r j c m ne (inl sent) = inl sent
  IsLogged-saved r j c m ne (inr saved) = inr (
      get-insert_ne (dir, recovery_file j) (dir, recovery_file i)
        (λ p. ne (ap (λ (k : String × String). k.1) p)) c r.recovered
      ∙ saved)

  IsLogged-called :
      (r : Recovery) (call : Call) → IsLogged r → IsLogged (record r { calls = call ∷ r.calls })
  IsLogged-called r call (inl sent) = inl (inr sent)
  IsLogged-called r call (inr saved) = inr saved

  -- A file of the entry's name is saved only while the entry is pending.
  abbrev IsFree : String → Recovery → Type 0
  IsFree j r = (¬ (recovery_file j ≡ recovery_file i)) ⊎ (read d i r.writeback ≡ some content)

  save_to_recovery-IsHeld :
      (e j : String) (r : Recovery)
      → has_escape j ≡ false
      → IsFree j r
      → IsHeld r
      → IsHeld (save_to_recovery server io e j dir r).0
  unfolding save_to_recovery
  save_to_recovery-IsHeld e j r h free held = elim (Option-cases (read e j r.writeback)) [
    | inl absent ↦
        rw (absent, save_to_recovery)
          (remove_entry-IsHeld e j r h
            (λ p q. elim (held_content e j r none absent held p q) [
              | inl wrong ↦ ground (arith, wrong)
              | inr done ↦ done
            ])
            held)
    | inr (c, found) ↦
        let path : String × String = (dir, recovery_file j) in
        let m = if io.manifests then (e, j, length c) ∷ r.manifest else r.manifest in
        let saved : Recovery = record r {
          recovered = Map.insert path c r.recovered;
          manifest = m;
        } in
        let P : Recovery × Bool → Type 0 = λ x. IsHeld x.0 in
        rw (found, save_to_recovery)
          (if_lem P io.saves
            (remove_entry-IsHeld e j saved h
              (λ p q. elim free [
                | inl ne ↦ absurd (ne (ap recovery_file q))
                | inr pending ↦
                    let same : c ≡ content = some_inj (cc (found, pending, p, q)) in
                    let at : (dir, recovery_file i) ≡ path =
                      ap (λ k. (dir, recovery_file k)) (sym q) in
                    inr (
                      ap (λ k. Map.get k saved.recovered) at
                      ∙ get-insert_self path c r.recovered
                      ∙ ap (λ b. some b) same)
              ])
              (elim free [
                | inr pending ↦ inl pending
                | inl ne ↦ elim held [
                  | inl pending ↦ inl pending
                  | inr done ↦ inr (IsLogged-saved r j c m ne done)
                ]
              ]))
            held)
  ]

  -- The call for the content of the entry, and the server's answer.
  conclude_upload-IsHeld :
      (e j : String) (r : Recovery) (c : Bytes) (call : Call) (answer : Result DriveItem)
      → has_escape j ≡ false
      → read e j r.writeback ≡ some c
      → uploaded call ≡ some (e, c)
      → server r.calls call ≡ answer
      → IsHeld r
      → IsHeld (conclude_upload server io e j (record r { calls = call ∷ r.calls }, answer)).0
  unfolding conclude_upload
  conclude_upload-IsHeld e j r c call (err x) h found sent a (inl pending) = inl pending
  conclude_upload-IsHeld e j r c call (err x) h found sent a (inr done) =
      inr (IsLogged-called r call done)
  conclude_upload-IsHeld e j r c call (ok x) h found sent a held =
      remove_entry-IsHeld e j (record r { calls = call ∷ r.calls }) h
        (λ p q. elim (held_content e j r (some c) found held p q) [
          | inl same ↦ inl (inl (cc (sent, p, some_inj same), ap is_ok a))
          | inr done ↦ IsLogged-called r call done
        ])
        (elim held [ inl pending ↦ inl pending | inr done ↦ inr (IsLogged-called r call done) ])

  recover_upload-IsHeld :
      (e j : String) (r : Recovery) (c : Bytes) (parent name : String)
      → has_escape j ≡ false
      → read e j r.writeback ≡ some c
      → IsHeld r
      → IsHeld
          (conclude_upload server io e j
            (perform_upload server io (upload_call e parent (some j) name c none) r)).0
  unfolding perform_upload upload_call
  recover_upload-IsHeld e j r c parent name h found held =
      elim (Bool-cases (ltb (length c) small_file_limit)) [
        | inl small ↦ rw small (
            conclude_upload-IsHeld e j r c (upload_small e parent name c none) _ h found refl refl
              held)
        | inr large ↦
            rw large (
              conclude_upload-IsHeld e j r c (Call.upload_large e j c none) _ h found refl refl
                held)
      ]

  recover_single-IsHeld :
      (e j : String) (r : Recovery)
      → has_escape j ≡ false
      → IsFree j r
      → IsHeld r
      → IsHeld (recover_single server io e j (some dir) r).0
  unfolding recover_single
  recover_single-IsHeld e j r h free held =
      let P : Recovery × Bool → Type 0 = λ x. IsHeld x.0 in
      if_lem P (is_local j) (save_to_recovery-IsHeld e j r h free held)
        (elim (Option-cases (read e j r.writeback)) [
          | inl absent ↦ rw (absent, recover_single) held
          | inr (c, found) ↦
              rw (found, recover_single)
                (recover_upload-IsHeld e j r c (resolve_upload_params j r.store).0
                  (resolve_upload_params j r.store).1 h found held)
        ])

  -- The entry is not touched by the recovery of another.
  abbrev IsPending : Recovery → Type 0
  IsPending r = read d i r.writeback ≡ some content

  module _ (e j : String) (h : has_escape j ≡ false) (ne : e ≡ d → j ≢ i) where
    remove_entry-IsPending : (r : Recovery) → IsPending r → IsPending (remove_entry server io e j r)
    unfolding remove_entry
    remove_entry-IsPending r pending =
        read-remove_ne e j d i h plain ne r.writeback io.removes ∙ pending

    conclude_upload-IsPending :
        (x : Recovery × Result DriveItem)
        → IsPending x.0
        → IsPending (conclude_upload server io e j x).0
    unfolding conclude_upload
    conclude_upload-IsPending (r, ok item) pending = remove_entry-IsPending r pending
    conclude_upload-IsPending (r, err x) pending = pending

    perform_upload-IsPending :
        (call : Result Call) (r : Recovery)
        → IsPending r
        → IsPending (perform_upload server io call r).0
    unfolding perform_upload
    perform_upload-IsPending (ok call) r pending = pending
    perform_upload-IsPending (err x) r pending = pending

    save_to_recovery-IsPending :
        (r : Recovery) → IsPending r → IsPending (save_to_recovery server io e j dir r).0
    unfolding save_to_recovery
    save_to_recovery-IsPending r pending = elim (Option-cases (read e j r.writeback)) [
      | inl absent ↦ rw (absent, save_to_recovery) (remove_entry-IsPending r pending)
      | inr (c, found) ↦
          let saved : Recovery = record r {
            recovered = Map.insert (dir, recovery_file j) c r.recovered;
            manifest = if io.manifests then (e, j, length c) ∷ r.manifest else r.manifest;
          } in
          rw (found, save_to_recovery)
            (if_lem (λ (x : Recovery × Bool). IsPending x.0) io.saves
              (remove_entry-IsPending saved pending) pending)
    ]

    recover_single-IsPending :
        (r : Recovery) → IsPending r → IsPending (recover_single server io e j (some dir) r).0
    unfolding recover_single
    recover_single-IsPending r pending =
        if_lem (λ (x : Recovery × Bool). IsPending x.0) (is_local j)
          (save_to_recovery-IsPending r pending)
          (elim (Option-cases (read e j r.writeback)) [
            | inl absent ↦ rw (absent, recover_single) pending
            | inr (c, found) ↦
                rw (found, recover_single)
                  (conclude_upload-IsPending _ (perform_upload-IsPending _ r pending))
          ])

  -- Further entries, none of which is saved in the entry's file.
  recover_all-IsHeld :
      (counts : String → Bool) (entries : List (String × String)) (r : Recovery)
      → All (λ k. has_escape k.1 ≡ false) entries
      → HasNone (recovery_file i) entries
      → IsHeld r
      → IsHeld (recover_all server io counts (some dir) entries r).0
  unfolding recover_all
  recover_all-IsHeld counts [] r h others held = held
  recover_all-IsHeld counts ((e, j) ∷ entries) r h others held =
      recover_all-IsHeld counts entries (recover_single server io e j (some dir) r).0 h.1 others.1
        (recover_single-IsHeld e j r h.0 (inl others.0) held)

  -- The entry is pending until the one that may be saved in its file.
  recover_all-IsKept :
      (counts : String → Bool) (entries : List (String × String)) (r : Recovery)
      → All (λ k. has_escape k.1 ≡ false) entries
      → HasOne (recovery_file i) entries
      → IsPending r
      → IsHeld (recover_all server io counts (some dir) entries r).0
  unfolding recover_all
  recover_all-IsKept counts [] r h one pending = inl pending
  recover_all-IsKept counts ((e, j) ∷ entries) r h (inl (ne, one)) pending =
      recover_all-IsKept counts entries (recover_single server io e j (some dir) r).0 h.1 one
        (recover_single-IsPending e j h.0 (λ p q. ne (ap recovery_file q)) r pending)
  recover_all-IsKept counts ((e, j) ∷ entries) r h (inr rest) pending =
      recover_all-IsHeld counts entries (recover_single server io e j (some dir) r).0 h.1 rest
        (recover_single-IsHeld e j r h.0 (inr pending) (inl pending))

-- After a recovery the content of an entry is still pending, was accepted by the server, or is in the
-- file of its name in the recovery folder, whatever the server and the file system answer. At most
-- one listed entry has a recovery file of that name, on whatever drive; there is a folder to recover
-- to, and no item id holds "%3A".
pub recover_pending_writes-IsKept :
    (server : Server) (io : RecoveryIo) (d i dir : String) (content : Bytes) (r : Recovery)
    → has_escape i ≡ false
    → All (λ k. has_escape k.1 ≡ false) (list_pending r.writeback)
    → HasOne (recovery_file i) (list_pending r.writeback)
    → read d i r.writeback ≡ some content
    → IsKept server dir d i content (recover_pending_writes server io (some dir) r).0
unfolding recover_pending_writes
recover_pending_writes-IsKept server io d i dir content r plain h one pending =
    recover_all-IsKept server io dir d i content plain is_local (list_pending r.writeback) r h one
      pending
