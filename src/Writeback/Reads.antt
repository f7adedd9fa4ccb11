-- ===== src/Writeback/Reads.antt =====
-- crates/carminedesktop-cache/src/writeback.rs: what can be read after each operation.
use Prim.Native.Char.{code}
use Prim.Native.String.append
use mathlib.Core.List.{Mem, mem-cons_self, mem-cons_of_mem}
use carmine_desktop.Common.{
  ℕ, List, ◌≡◌, ◌≢◌, refl, ◌∙◌, String, Bool, true, false, none, some, ◌⊎◌, is_some, [], ◌∷◌, arith,
  Bool-cases, inl, inr, nat_eq, string_eq, pair_eq, ap, sym, if_cases,
}
use mathlib.Core.Path.{subst}
use carmine_desktop.Common.Map
use carmine_desktop.Common.Map.{
  Map, get-insert, get-insert_self, get-insert_ne, get-remove_ne, get-remove_self,
}
use carmine_desktop.Item.{ok, err, cache}
use carmine_desktop.Names.{◌++◌, codes, ends_with}
use carmine_desktop.Writeback.{
  Bytes, WriteBackBuffer, pending_path, tmp_path, tmp_name, stem_or, before_last_dot, renamed,
  sanitize_filename, unsanitize_filename, write, read, remove, has_pending, list_pending_files,
  list_pending, crash,
}
use carmine_desktop.Writeback.Encoding.{
  has_escape, unsanitize_filename-sanitize_filename, sanitize_filename-injective,
}

-- A file name that the listing skips.
abbrev pub is_tmp : String → Bool
is_tmp name = ends_with (codes name) (codes ".tmp")

ends_with-cons :
    (c : ℕ) (cs suffix : List ℕ) → ends_with cs suffix ≡ true → ends_with (c ∷ cs) suffix ≡ true
ends_with-cons c cs suffix h = ground (arith, h)

is_tmp-append : (s : String) → is_tmp (s ++ ".tmp") ≡ true
is_tmp-append String.[] = refl
is_tmp-append (String.◌∷◌ c s) =
    ap is_tmp (append.cons c s ".tmp")
    ∙ ends_with-cons (code c) (codes (s ++ ".tmp")) (codes ".tmp") (is_tmp-append s)

is_tmp-tmp_name : (name : String) → is_tmp (tmp_name name) ≡ true
unfolding tmp_name
is_tmp-tmp_name name = is_tmp-append (stem_or name (before_last_dot name))

-- A file that is renamed stands under its new path, and no file changes but those of the two paths.
pub get-renamed_self :
    (tmp path : String × String) (content : Bytes) (files : Map (String × String) Bytes)
    → Map.get path (renamed tmp path content files) ≡ some content
unfolding renamed
get-renamed_self tmp path content files = get-insert_self path content _

pub get-renamed_ne :
    (tmp path k : String × String) (content : Bytes) (files : Map (String × String) Bytes)
    → ¬ (tmp ≡ k)
    → ¬ (path ≡ k)
    → Map.get k (renamed tmp path content files) ≡ Map.get k files
unfolding renamed
get-renamed_ne tmp path k content files t p =
    get-insert_ne path k p content _ ∙ get-remove_ne tmp k t _ ∙ get-insert_ne tmp k t content files

-- The `.tmp` file of an item is that of no item whose file name does not end with ".tmp".
pub tmp_path-distinct :
    (d i : String) (k : String × String) → is_tmp k.1 ≡ false → ¬ (tmp_path d i ≡ k)
tmp_path-distinct d i k h p =
    ground
      (arith, is_tmp-tmp_name (sanitize_filename i), ap (λ (q : String × String). is_tmp q.1) p, h)

module _ (d i : String) (w : WriteBackBuffer) where
  -- What was written is read back, also where the disk refused it; and `write` returned an error,
  -- or it is still read after a crash.
  pub read-write :
      (io : Bool) (content : Bytes)
      → (read d i (write io d i content w).0 ≡ some content)
        × (((write io d i content w).1 ≡ err (cache "persist pending failed"))
            ⊎ (read d i (crash (write io d i content w).0) ≡ some content))
  unfolding read write crash
  read-write true content = (
    ground (arith, get-insert_self (d, i) content w.buffers),
    inr (
        ground (
          arith,
          get-insert_self (d, i) content w.buffers,
          get-renamed_self (tmp_path d i) (pending_path d i) content w.files,
          Map.get-nil {K = String × String} {V = Bytes} (d, i),
        )),
  )
  read-write false content = (
    ground (arith, get-insert_self (d, i) content w.buffers),
    inl (ground (arith, get-insert_self (d, i) content w.buffers)),
  )

  -- A remove that returns no error leaves nothing to read, and `has_pending` false.
  pub read-remove :
      (io : Bool)
      → (remove io d i w).1 ≡ ok tt
      → (read d i (remove io d i w).0 ≡ none) × (has_pending d i (remove io d i w).0 ≡ false)
  unfolding read remove has_pending
  read-remove io h =
      ground (arith, get-remove_self (d, i) w.buffers, get-remove_self (pending_path d i) w.files)

  -- `has_pending` holds exactly if there is content to read.
  pub has_pending_iff : has_pending d i w ≡ is_some (read d i w)
  unfolding read has_pending
  has_pending_iff = ground arith

module _ (d i e j : String) (hi : has_escape i ≡ false) (hj : has_escape j ≡ false)
    (ne : d ≡ e → i ≢ j) where
  keys_ne : ¬ ◌≡◌ {A = String × String} (d, i) (e, j)
  keys_ne p = ne (ap (λ (q : String × String). q.0) p) (ap (λ (q : String × String). q.1) p)

  paths_ne : ¬ (pending_path d i ≡ pending_path e j)
  paths_ne p =
      ne (ap (λ (q : String × String). q.0) p)
        (sanitize_filename-injective i j hi hj (ap (λ (q : String × String). q.1) p))

  -- A remove of one entry changes nothing of what is read of another.
  pub read-remove_ne : (w : WriteBackBuffer) (io : Bool) → read e j (remove io d i w).0 ≡ read e j w
  unfolding read remove
  read-remove_ne w io = ground (
    arith,
    get-remove_ne (d, i) (e, j) keys_ne w.buffers,
    get-remove_ne (pending_path d i) (pending_path e j) paths_ne w.files,
  )

-- For item ids that hold no "%3A", a write or a remove of one entry changes nothing of what is read
-- of another whose file name does not end with ".tmp".
pub read-write_ne :
    (d i e j : String) (w : WriteBackBuffer) (io : Bool) (content : Bytes)
    → has_escape i ≡ false
    → has_escape j ≡ false
    → is_tmp (sanitize_filename j) ≡ false
    → (d ≡ e → i ≢ j)
    → (read e j (write io d i content w).0 ≡ read e j w)
      × (read e j (remove io d i w).0 ≡ read e j w)
unfolding read write
read-write_ne d i e j w io content hi hj ht ne = (
  ground (
    arith,
    get-insert_self (d, i) content w.buffers,
    get-insert_ne (d, i) (e, j) (keys_ne d i e j hi hj ne) content w.buffers,
    get-renamed_ne (tmp_path d i) (pending_path d i) (pending_path e j) content w.files
        (tmp_path-distinct d i (pending_path e j) ht) (paths_ne d i e j hi hj ne),
  ),
  read-remove_ne d i e j hi hj ne w io,
)

mem-list_pending_files :
    (d i : String) (m : Map (String × String) Bytes) (content : Bytes)
    → has_escape i ≡ false
    → is_tmp (sanitize_filename i) ≡ false
    → Map.get (pending_path d i) m ≡ some content
    → Mem (d, i) (list_pending_files (Map.keys m))
unfolding list_pending_files Map.get
mem-list_pending_files d i [] content hi ht e = cc
mem-list_pending_files d i (((a, b), v) ∷ m) content hi ht e =
    elim (Bool-cases (pair_eq.beq (a, b) (pending_path d i))) [
      | inl same ↦
          let p = (pair_eq.beq_iff (a, b) (pending_path d i)).0 same in
          let pa : a ≡ d = ap (λ (q : String × String). q.0) p in
          let pb : b ≡ sanitize_filename i = ap (λ (q : String × String). q.1) p in
          let whole : ◌≡◌ {A = String × String} (a, unsanitize_filename b) (d, i) =
            cc (pa, ap unsanitize_filename pb, unsanitize_filename-sanitize_filename i hi) in
          if_cases (λ l. Mem {A = String × String} (d, i) l) (is_tmp b)
            (λ t. absurd (ground (arith, t, ap is_tmp pb, ht)))
            (λ _.
              subst (λ (q : String × String). Mem (d, i) (q ∷ list_pending_files (Map.keys m)))
                (sym whole) mem-cons_self)
      | inr other ↦
          let ih = mem-list_pending_files d i m content hi ht (rw other at e) in
          if_cases (λ l. Mem {A = String × String} (d, i) l) (is_tmp b) (λ _. ih)
            (λ _. mem-cons_of_mem (a, unsanitize_filename b) ih)
    ]

-- A write that returned no error is listed for recovery after a crash, for an item id that holds
-- no "%3A" and whose file name does not end with ".tmp".
pub mem-list_pending-write :
    (d i : String) (w : WriteBackBuffer) (io : Bool) (content : Bytes)
    → has_escape i ≡ false
    → is_tmp (sanitize_filename i) ≡ false
    → (write io d i content w).1 ≡ ok tt
    → Mem (d, i) (list_pending (crash (write io d i content w).0))
unfolding list_pending crash write
mem-list_pending-write d i w false content hi ht h =
    absurd (ground (arith, get-insert_self (d, i) content w.buffers))
mem-list_pending-write d i w true content hi ht h =
    mem-list_pending_files d i (crash (write true d i content w).0).files content hi ht (
      ground (
        arith,
        get-insert_self (d, i) content w.buffers,
        get-renamed_self (tmp_path d i) (pending_path d i) content w.files,
      ))
