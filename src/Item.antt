-- ===== src/Item.antt =====
-- crates/carminedesktop-core/src/types.rs and error.rs: the item of a drive, and the errors. Sizes
-- (`i64`) are not negative; dates are numbers of seconds.
use carmine_desktop.Common.{
  ℕ, Bool, Option, none, some, is_some, String, false, option_beq, and_then, string_eq,
}

pub record ParentReference : Type 0 where
  pub drive_id : Option String
  pub id : Option String
  pub path : Option String

pub record FolderFacet : Type 0 where
  pub child_count : ℕ

pub record FileHashes : Type 0 where
  pub sha256 : Option String
  pub quick_xor : Option String

pub record FileFacet : Type 0 where
  pub mime_type : Option String
  pub hashes : Option FileHashes

pub record PublicationFacet : Type 0 where
  pub level : Option String
  pub version_id : Option String

pub record DriveItem : Type 0 where
  pub id : String
  pub name : String
  pub size : ℕ
  pub last_modified : Option ℕ
  pub created : Option ℕ
  pub etag : Option String
  pub parent_reference : Option ParentReference
  pub folder : Option FolderFacet
  pub file : Option FileFacet
  pub publication : Option PublicationFacet
  pub download_url : Option String
  pub web_url : Option String

unfoldable pub is_folder : DriveItem → Bool
is_folder item = is_some item.folder

-- Checked out, or locked by co-authoring.
unfoldable pub is_locked : DriveItem → Bool
is_locked item = elim item.publication [
  | none ↦ false
  | some p ↦ option_beq p.level (some "checkout")
]

-- `item.parent_reference.as_ref().and_then(|p| p.id.as_deref())`
abbrev pub parent_id : DriveItem → Option String
parent_id item = and_then item.parent_reference (λ p. p.id)

pub data Error : Type 0 where
  auth : String → Error
  graph_api : ℕ → String → Error
  cache : String → Error
  filesystem : String → Error
  config : String → Error
  network : String → Error
  precondition_failed : Error
  locked : Error
  io : String → Error
  other : String → Error

pub data Result {ℓ} (A : Type ℓ) : Type ℓ where
  ok : A → Result A
  err : Error → Result A

infixl 5 ◌>>=◌
abbrev pub ◌>>=◌ {ℓ κ} : {A : Type ℓ} {B : Type κ} → Result A → (A → Result B) → Result B
ok a >>= f = f a
err e >>= f = err e
