-- ===== src/Replay/Canonical.antt =====
-- internal/replay/canonicalize.go: what makes the input of a call independent of the place of the
-- workspace. The parser and the printer of JSON and SHA-256 (in hexadecimal) are parameters. A text
-- may hold a document whose texts hold documents: `depth` bounds how deep they are read.
pub mod Depth
use harnesslab.Shared.Text.{bytes_beq}
use harnesslab.Shared.Scan.{has_prefix, trim_space, replace_all}
use harnesslab.Shared.{
  ℕ, zero, suc, Bool, not, ◌&&◌, ◌||◌, Option, none, some, List, [], ◌∷◌, ◌++◌, Bytes, bytes,
  bytes_eq, ◌==◌, if◌then◌else◌,
}

-- A value of JSON; a number is its text. A list of values stands for an array.
mutual
  pub data Json : Type 0 where
    null : Json
    bool : Bool → Json
    number : Bytes → Json
    text : Bytes → Json
    array : Items → Json
    object : Fields → Json

  pub data Items : Type 0 where
    no_items : Items
    item : Json → Items → Items

  pub data Fields : Type 0 where
    no_fields : Fields
    field : Bytes → Json → Fields → Fields

-- The walk over a document; `f` is what becomes of its texts, not of its keys.
unfoldable mutual
  pub map_texts : (Bytes → Bytes) → Json → Json
  map_texts f Json.null = Json.null
  map_texts f (Json.bool b) = Json.bool b
  map_texts f (Json.number n) = Json.number n
  map_texts f (Json.text t) = Json.text (f t)
  map_texts f (Json.array xs) = Json.array (map_items f xs)
  map_texts f (Json.object xs) = Json.object (map_fields f xs)

  pub map_items : (Bytes → Bytes) → Items → Items
  map_items f Items.no_items = Items.no_items
  map_items f (Items.item x xs) = Items.item (map_texts f x) (map_items f xs)

  pub map_fields : (Bytes → Bytes) → Fields → Fields
  map_fields f Fields.no_fields = Fields.no_fields
  map_fields f (Fields.field k x xs) = Fields.field k (map_texts f x) (map_fields f xs)

pub record Canonicalizer : Type 0 where
  pub workspace_root : Bytes
  pub temp_dir : Bytes

pub record Coder : Type 0 where
  -- `json.Unmarshal` and `json.Marshal`, which can fail.
  pub unmarshal : Bytes → Option Json
  pub marshal : Json → Option Bytes
  pub sha256_hex : Bytes → Bytes

abbrev back_slash : Bytes
back_slash = 92 ∷ []

unfoldable pub normalize_string : Canonicalizer → Bytes → Bytes
unfolding replace_all
normalize_string c s0 =
    let flipped = replace_all c.workspace_root back_slash (bytes "/") in
    let s1 = replace_all s0 c.workspace_root (bytes "$WORKSPACE") in
    let s2 =
      if not (flipped == c.workspace_root)
      then replace_all s1 flipped (bytes "$WORKSPACE")
      else s1 in
    let s3 = if not (c.workspace_root == []) then s2 else s0 in
    if not (c.temp_dir == []) then replace_all s3 c.temp_dir (bytes "$TMP") else s3

abbrev pub or_empty : Option Bytes → Bytes
or_empty none = []
or_empty (some s) = s

module _ (coder : Coder) (c : Canonicalizer) where
  abbrev pub printed : (Json → Json) → Option Json → Bytes
  printed walk none = []
  printed walk (some v) = or_empty (coder.marshal (walk v))

  abbrev pub looks_nested : Bytes → Bool
  looks_nested s = has_prefix s (bytes "{") || has_prefix s (bytes "[")

  -- `normalizeNestedJSON`, with the walk over the nested document.
  unfoldable pub normalize_nested : (Json → Json) → Bytes → Bytes
  normalize_nested walk t =
      let trimmed = trim_space t in
      if not (looks_nested trimmed) then [] else printed walk (coder.unmarshal trimmed)

  -- The case of a text in `normalizeValue`.
  abbrev pub nested_or : Bytes → Bytes → Bytes
  nested_or nested t = if not (nested == []) then nested else normalize_string c t

  unfoldable pub normalize_text : ℕ → Bytes → Bytes
  unfolding normalize_nested map_texts
  normalize_text zero t = normalize_string c t
  normalize_text (suc depth) t = nested_or (normalize_nested (map_texts (normalize_text depth)) t) t

  unfoldable pub normalize_value : ℕ → Json → Json
  unfolding normalize_text map_texts
  normalize_value depth v = map_texts (normalize_text depth) v

  abbrev norm_document : ℕ → Bytes → Option Json → Option Bytes
  unfolding normalize_value normalize_string
  norm_document depth s none = some (normalize_string c s)
  norm_document depth s (some v) = coder.marshal (normalize_value depth v)

  -- `Normalize`; `none` is the error of `json.Marshal`.
  unfoldable pub normalize : ℕ → Bytes → Option Bytes
  unfolding norm_document
  normalize depth s = norm_document depth s (coder.unmarshal s)

  abbrev pub hash_of : Bytes → Bytes → Option Bytes → Option Bytes
  hash_of kind name none = none
  hash_of kind name (some norm) = some (coder.sha256_hex (kind ++ (0 ∷ (name ++ (0 ∷ norm)))))

  unfoldable pub hash : ℕ → Bytes → Bytes → Bytes → Option Bytes
  unfolding normalize
  hash depth kind name input = hash_of kind name (normalize depth input)
