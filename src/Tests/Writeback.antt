-- ===== src/Tests/Writeback.antt =====
-- The writeback buffer at concrete inputs.
use mathlib.Core.List.{Mem}
use carmine_desktop.Common.{◌≡◌, ◌≢◌, ◌⊎◌, refl, true, false, none, some, [], ◌∷◌, arith, string_eq}
use carmine_desktop.Item.{ok, err, cache}
use carmine_desktop.Writeback.{
  new, write, write_chunk, finish_chunked_write, read, remove, crash, has_pending, list_pending,
  sanitize_filename, unsanitize_filename, WriteBackBuffer,
}
use carmine_desktop.Writeback.Encoding.{unsanitize_filename-sanitize_filename}
use carmine_desktop.Writeback.Reads.{read-write, read-write_ne, mem-list_pending-write}

-- The item "01A!2" of drive "d" has been written.
abbrev written : WriteBackBuffer
written = (write true "d" "01A!2" (1 ∷ 2 ∷ []) new).0

removed_ok : (remove true "d" "01A!2" written).1 ≡ ok tt
unfolding remove carmine_desktop.Common.Map.get write carmine_desktop.Common.Map.insert
    sanitize_filename
removed_ok = refl

test_sanitize : sanitize_filename "local:1" ≡ "local%3A1"
unfolding sanitize_filename
test_sanitize = refl

test_gap :
    read "d" "b"
      (finish_chunked_write true "d" "b"
        (write_chunk true "d" "b" 3 (9 ∷ []) (write_chunk true "d" "b" 0 (7 ∷ []) new).0).0).0
    ≡ some (7 ∷ 0 ∷ 0 ∷ 9 ∷ [])
unfolding read carmine_desktop.Common.Map.get finish_chunked_write write_chunk
    carmine_desktop.Common.Map.insert sanitize_filename new carmine_desktop.Writeback.tmp_name
    carmine_desktop.Common.Map.remove
test_gap = refl

unsanitize_filename-sanitize_filename_example :
    unsanitize_filename (sanitize_filename "local:1") ≡ "local:1"
unsanitize_filename-sanitize_filename_example = unsanitize_filename-sanitize_filename "local:1" refl

read-write_example :
    (read "d" "local:1" (write true "d" "local:1" (5 ∷ []) written).0 ≡ some (5 ∷ []))
    × (((write true "d" "local:1" (5 ∷ []) written).1 ≡ err (cache "persist pending failed"))
        ⊎ (read "d" "local:1" (crash (write true "d" "local:1" (5 ∷ []) written).0)
            ≡ some (5 ∷ [])))
read-write_example = read-write "d" "local:1" written true (5 ∷ [])

read-write_ne_example :
    (read "d" "01A!2" (write true "d" "local:1" (5 ∷ []) written).0 ≡ read "d" "01A!2" written)
    × (read "d" "01A!2" (remove true "d" "local:1" written).0 ≡ read "d" "01A!2" written)
unfolding sanitize_filename
read-write_ne_example =
    read-write_ne "d" "local:1" "d" "01A!2" written true (5 ∷ []) refl refl refl
      (λ same e. absurd (ground (arith, (string_eq.beq_iff "local:1" "01A!2").1 e)))

write_ok : (write true "d" "local:1" (5 ∷ []) written).1 ≡ ok tt
unfolding write carmine_desktop.Common.Map.get carmine_desktop.Common.Map.insert
write_ok = refl

not_tmp : carmine_desktop.Writeback.Reads.is_tmp (sanitize_filename "local:1") ≡ false
unfolding sanitize_filename
not_tmp = refl

mem-list_pending-write_example :
    Mem ("d", "local:1") (list_pending (crash (write true "d" "local:1" (5 ∷ []) written).0))
mem-list_pending-write_example =
    mem-list_pending-write "d" "local:1" written true (5 ∷ []) refl not_tmp write_ok
