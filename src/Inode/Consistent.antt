-- ===== src/Inode/Consistent.antt =====
-- crates/carminedesktop-vfs/src/inode.rs: the two maps of the table are inverse to one another.
use carmine_desktop.Common.{
  ℕ, ◌+◌, ◌%◌, ◌≤◌, ◌<◌, String, ◌≡◌, ◌≢◌, none, some, List, [], ◌∷◌, arith, string_eq, nat_eq,
  Option-cases, All, inl, inr,
}
use carmine_desktop.Common.Map
use carmine_desktop.Common.Map.{get-insert, get-insert_self, get-remove, map_laws}
use carmine_desktop.Inode.{
  InodeTable, root_inode, u64_modulus, new, new_starting_after, insert_pair, seed, allocate,
  get_item_id, get_inode, remove_by_item_id,
}

pub record IsConsistent (t : InodeTable) : Type 0 where
  pub forward :
      (i : ℕ) (id : String)
      → Map.get i t.inode_to_item ≡ some id
      → Map.get id t.item_to_inode ≡ some i
  pub backward :
      (i : ℕ) (id : String)
      → Map.get id t.item_to_inode ≡ some i
      → Map.get i t.inode_to_item ≡ some id
  pub below_next : (i : ℕ) (id : String) → Map.get i t.inode_to_item ≡ some id → i < t.next_inode
  pub after_root : root_inode < t.next_inode

module _ (t : InodeTable) (c : IsConsistent t) (i : ℕ) (id : String) where
  pub insert_pair-IsConsistent :
      i < t.next_inode
      → Map.get i t.inode_to_item ≡ none
      → Map.get id t.item_to_inode ≡ none
      → IsConsistent (insert_pair i id t)
  unfolding insert_pair
  insert_pair-IsConsistent lt hi hid = record {
    forward = λ j jd h. ground (
      arith,
      get-insert i j id t.inode_to_item,
      get-insert id jd i t.item_to_inode,
      nat_eq.beq_iff i j,
      string_eq.beq_iff id jd,
      c.forward j jd,
    );
    backward = λ j jd h. ground (
      arith,
      get-insert i j id t.inode_to_item,
      get-insert id jd i t.item_to_inode,
      nat_eq.beq_iff i j,
      string_eq.beq_iff id jd,
      c.backward j jd,
    );
    below_next = λ j jd h.
        ground (arith, get-insert i j id t.inode_to_item, nat_eq.beq_iff i j, c.below_next j jd);
    after_root = c.after_root;
  }

pub IsConsistent-new : IsConsistent new
unfolding new
IsConsistent-new = record {
  forward = λ i id h. ground (arith, Map.get-nil {V = String} i);
  backward = λ i id h. ground (arith, Map.get-nil {V = ℕ} id);
  below_next = λ i id h. ground (arith, Map.get-nil {V = String} i);
  after_root = omega arith;
}

unmapped_inode :
    (t : InodeTable) (i : ℕ) → IsConsistent t → t.next_inode ≤ i → Map.get i t.inode_to_item ≡ none
unmapped_inode t i c h = elim (Option-cases (Map.get i t.inode_to_item)) [
  | inl e ↦ e
  | inr (id, e) ↦ absurd (omega (arith, c.below_next i id e))
]

raise_next :
    (t : InodeTable) (n : ℕ)
    → IsConsistent t
    → t.next_inode ≤ n
    → IsConsistent (record t { next_inode = n })
raise_next t n c h = record {
  forward = c.forward;
  backward = c.backward;
  below_next = λ i id e. omega (arith, c.below_next i id e);
  after_root = omega (arith, c.after_root);
}

-- Allocation in a consistent table keeps it consistent while the counter stays under 2^64, and the
-- inode that it returns is the one that both maps then hold for the item.
pub allocate-IsConsistent :
    (id : String) (t : InodeTable)
    → IsConsistent t
    → t.next_inode + 1 < u64_modulus
    → IsConsistent (allocate id t).0
      × (get_inode id (allocate id t).0 ≡ some (allocate id t).1)
      × (get_item_id (allocate id t).1 (allocate id t).0 ≡ some id)
unfolding allocate get_inode get_item_id
allocate-IsConsistent id t c h = elim (Option-cases (Map.get id t.item_to_inode)) [
  | inl e ↦
      rw (e, allocate)
        (
          insert_pair-IsConsistent _
              (raise_next t ((t.next_inode + 1) % u64_modulus) c (omega arith)) t.next_inode id
              (omega arith) (unmapped_inode t t.next_inode c (omega arith)) e,
          get-insert_self id t.next_inode t.item_to_inode,
          get-insert_self t.next_inode id t.inode_to_item,
        )
  | inr (i, e) ↦ rw (e, allocate) (c, e, c.backward i id e)
]

-- Two items never get one inode: after any number of allocations for other items in between, the
-- consistent table tells them apart.
pub get_inode-injective :
    (t : InodeTable) (a b : String) (i : ℕ)
    → IsConsistent t
    → get_inode a t ≡ some i
    → get_inode b t ≡ some i
    → a ≡ b
unfolding get_inode
get_inode-injective t a b i c p q = ground (arith, c.backward i a p, c.backward i b q)

remove_pair-IsConsistent :
    (t : InodeTable) (i : ℕ) (id : String)
    → IsConsistent t
    → Map.get id t.item_to_inode ≡ some i
    → IsConsistent (record t {
      inode_to_item = Map.remove i t.inode_to_item;
      item_to_inode = Map.remove id t.item_to_inode;
    })
remove_pair-IsConsistent t i id c e = record {
  forward = λ j jd h. ground (
    arith,
    get-remove i j t.inode_to_item,
    get-remove id jd t.item_to_inode,
    nat_eq.beq_iff i j,
    string_eq.beq_iff id jd,
    c.forward j jd,
    c.backward i id e,
  );
  backward = λ j jd h. ground (
    arith,
    get-remove i j t.inode_to_item,
    get-remove id jd t.item_to_inode,
    nat_eq.beq_iff i j,
    string_eq.beq_iff id jd,
    c.backward j jd,
    c.backward i id e,
  );
  below_next = λ j jd h. ground (arith, get-remove i j t.inode_to_item, c.below_next j jd);
  after_root = c.after_root;
}

-- Removing an item that has an inode in a consistent table keeps it consistent, and takes both
-- entries away.
pub remove_by_item_id-IsConsistent :
    (id : String) (i : ℕ) (t : InodeTable)
    → IsConsistent t
    → get_inode id t ≡ some i
    → IsConsistent (remove_by_item_id id t)
      × (get_inode id (remove_by_item_id id t) ≡ none)
      × (get_item_id i (remove_by_item_id id t) ≡ none)
unfolding remove_by_item_id get_inode get_item_id
remove_by_item_id-IsConsistent id i t c e =
    rw (e, remove_by_item_id)
      (
        remove_pair-IsConsistent t i id c e,
        Map.get-remove_self id t.item_to_inode,
        Map.get-remove_self i t.inode_to_item,
      )

-- What the database guarantees of the pairs: `inode` is its primary key, `item_id` is unique.
abbrev pub IsFresh : ℕ → String → List (ℕ × String) → Type 0
IsFresh i id pairs = All (λ p. (i ≢ p.0) × (id ≢ p.1)) pairs

abbrev pub IsDistinct : List (ℕ × String) → Type 0
IsDistinct [] = Unit
IsDistinct ((i, id) ∷ pairs) = IsFresh i id pairs × IsDistinct pairs

abbrev pub IsUnmapped : InodeTable → ℕ × String → Type 0
IsUnmapped t p =
    (p.0 < t.next_inode)
    × (Map.get p.0 t.inode_to_item ≡ none)
    × (Map.get p.1 t.item_to_inode ≡ none)

IsUnmapped-insert_pair :
    (t : InodeTable) (i : ℕ) (id : String) (pairs : List (ℕ × String))
    → IsFresh i id pairs
    → All (IsUnmapped t) pairs
    → All (IsUnmapped (insert_pair i id t)) pairs
unfolding insert_pair
IsUnmapped-insert_pair t i id [] f u = tt
IsUnmapped-insert_pair t i id ((j, jd) ∷ pairs) f u = (
  (
    u.0.0,
    ground (arith, get-insert i j id t.inode_to_item, nat_eq.beq_iff i j),
    ground (arith, get-insert id jd i t.item_to_inode, string_eq.beq_iff id jd),
  ),
  IsUnmapped-insert_pair t i id pairs f.1 u.1,
)

seed-IsConsistent_of_unmapped :
    (pairs : List (ℕ × String)) (t : InodeTable)
    → IsConsistent t
    → IsDistinct pairs
    → All (IsUnmapped t) pairs
    → IsConsistent (seed pairs t)
unfolding seed
seed-IsConsistent_of_unmapped [] t c d u = c
seed-IsConsistent_of_unmapped ((i, id) ∷ pairs) t c d u =
    seed-IsConsistent_of_unmapped pairs (insert_pair i id t)
      (insert_pair-IsConsistent t c i id u.0.0 u.0.1 u.0.2) d.1
      (IsUnmapped-insert_pair t i id pairs d.0 u.1)

IsUnmapped-new_starting_after :
    (m : ℕ) (pairs : List (ℕ × String))
    → m + 1 < u64_modulus
    → All (λ p. p.0 ≤ m) pairs
    → All (IsUnmapped (new_starting_after m)) pairs
unfolding new_starting_after
IsUnmapped-new_starting_after m [] h b = tt
IsUnmapped-new_starting_after m ((i, id) ∷ pairs) h b = (
  (omega (arith, b.0), Map.get-nil {V = String} i, Map.get-nil {V = ℕ} id),
  IsUnmapped-new_starting_after m pairs h b.1,
)

-- A table that starts after the largest inode of the database and is seeded with the database's
-- rows (inodes and ids unique, no inode above the largest) is consistent: later allocations cannot
-- collide with the rows.
pub seed-IsConsistent :
    (m : ℕ) (pairs : List (ℕ × String))
    → m + 1 < u64_modulus
    → IsDistinct pairs
    → All (λ p. p.0 ≤ m) pairs
    → IsConsistent (seed pairs (new_starting_after m))
unfolding new_starting_after
seed-IsConsistent m pairs h d b =
    seed-IsConsistent_of_unmapped pairs (new_starting_after m)
      (record {
        forward = λ i id p. ground (arith, Map.get-nil {V = String} i);
        backward = λ i id p. ground (arith, Map.get-nil {V = ℕ} id);
        below_next = λ i id p. ground (arith, Map.get-nil {V = String} i);
        after_root = omega arith;
      })
      d (IsUnmapped-new_starting_after m pairs h b)
