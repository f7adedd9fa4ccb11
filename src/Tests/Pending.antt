-- ===== src/Tests/Pending.antt =====
-- The recovery of pending writes at a concrete input.
use carmine_desktop.Common.{
  ◌≡◌, ◌⊎◌, ℕ, String, refl, true, false, none, some, List, [], ◌∷◌, All, string_eq, inl, inr,
  arith,
}
use carmine_desktop.Graph.{Call, Server}
use carmine_desktop.Item.{err, locked}
use carmine_desktop.Pending.{recovery_file, Recovery, RecoveryIo, recover_pending_writes}
use carmine_desktop.Pending.Saved.{IsKept, HasOne, recover_pending_writes-IsKept}
use carmine_desktop.Store
use carmine_desktop.Writeback
use carmine_desktop.Writeback.{Bytes, WriteBackBuffer, read, list_pending}
use carmine_desktop.Writeback.Encoding.{has_escape}

abbrev working : RecoveryIo
working = record { removes = true; saves = true; manifests = true }

abbrev refusing : Server
refusing calls call = err locked

-- A new file and one that the server knows are pending.
abbrev pending : WriteBackBuffer
pending =
    (Writeback.write true "d" "01A" (4 ∷ [])
      (Writeback.write true "d" "local:1" (1 ∷ 2 ∷ []) Writeback.new).0).0

abbrev before : Recovery
before = record {
  writeback = pending;
  store = Store.new;
  calls = [];
  recovered = [];
  manifest = [];
}

plain_ids : All (λ k. has_escape k.1 ≡ false) (list_pending before.writeback)
unfolding list_pending Writeback.write carmine_desktop.Common.Map.get
    carmine_desktop.Common.Map.insert Writeback.sanitize_filename carmine_desktop.Common.Map.remove
    Writeback.new Writeback.tmp_name
plain_ids = (refl, (refl, tt))

new_content : read "d" "local:1" before.writeback ≡ some (1 ∷ 2 ∷ [])
unfolding read carmine_desktop.Common.Map.get Writeback.write carmine_desktop.Common.Map.insert
    carmine_desktop.Common.Map.remove
new_content = refl

one_file : HasOne (recovery_file "local:1") (list_pending before.writeback)
unfolding list_pending Writeback.write carmine_desktop.Common.Map.get
    carmine_desktop.Common.Map.insert Writeback.sanitize_filename carmine_desktop.Common.Map.remove
    Writeback.new Writeback.tmp_name carmine_desktop.Pending.recovery_name
one_file = inl ((λ p. ground (arith, (string_eq.beq_iff "01A.bin" "local_1.bin").1 p)), inr tt)

recover_pending_writes-IsKept_example :
    IsKept refusing "recovered" "d" "local:1"
      (1 ∷ 2 ∷ [])
      (recover_pending_writes refusing working (some "recovered") before).0
recover_pending_writes-IsKept_example =
    recover_pending_writes-IsKept refusing working "d" "local:1" "recovered" (1 ∷ 2 ∷ []) before
      refl plain_ids one_file new_content

test_recovered :
    (recover_pending_writes refusing working (some "recovered") before).0.recovered
    ≡ (("recovered", "local_1.bin"), 1 ∷ 2 ∷ []) ∷ []
unfolding recover_pending_writes list_pending Writeback.write carmine_desktop.Common.Map.get
    carmine_desktop.Common.Map.insert Writeback.sanitize_filename carmine_desktop.Common.Map.remove
    Writeback.new Writeback.tmp_name read carmine_desktop.Graph.upload_call
    carmine_desktop.Pending.recovery_name
test_recovered = refl
