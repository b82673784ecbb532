-- ===== src/Replay/Canonical/Depth.antt =====
-- internal/replay/canonicalize.go: the depth to which nested documents are read.
use harnesslab.Replay.Canonical.{
  Json, Items, Fields, map_texts, map_items, map_fields, Canonicalizer, Coder, or_empty,
  looks_nested, normalize_nested, nested_or, normalize_text, normalize_value, normalize,
}
use harnesslab.Shared.Scan.{trim_space}
use harnesslab.Shared.{
  ℕ, zero, suc, ◌<◌, ◌≤◌, ◌≡◌, refl, ap, not, some, [], Bytes, if◌then◌else◌, Option-cases, inl,
  inr, arith,
}

-- A property of every text of a document, the keys excepted.
abbrev mutual
  pub Texts : (Bytes → Type 0) → Json → Type 0
  Texts P Json.null = Unit
  Texts P (Json.bool b) = Unit
  Texts P (Json.number n) = Unit
  Texts P (Json.text t) = P t
  Texts P (Json.array xs) = ItemTexts P xs
  Texts P (Json.object xs) = FieldTexts P xs

  pub ItemTexts : (Bytes → Type 0) → Items → Type 0
  ItemTexts P Items.no_items = Unit
  ItemTexts P (Items.item x xs) = Texts P x × ItemTexts P xs

  pub FieldTexts : (Bytes → Type 0) → Fields → Type 0
  FieldTexts P Fields.no_fields = Unit
  FieldTexts P (Fields.field k x xs) = Texts P x × FieldTexts P xs

-- Walks that do the same to each text of a document do the same to the document.
mutual
  unfolding map_texts map_items map_fields

  map_texts_congr :
      (f g : Bytes → Bytes) (v : Json) → Texts (λ t. f t ≡ g t) v → map_texts f v ≡ map_texts g v
  map_texts_congr f g Json.null h = refl
  map_texts_congr f g (Json.bool b) h = refl
  map_texts_congr f g (Json.number n) h = refl
  map_texts_congr f g (Json.text t) h = ap Json.text h
  map_texts_congr f g (Json.array xs) h = ap Json.array (map_items_congr f g xs h)
  map_texts_congr f g (Json.object xs) h = ap Json.object (map_fields_congr f g xs h)

  map_items_congr :
      (f g : Bytes → Bytes) (xs : Items)
      → ItemTexts (λ t. f t ≡ g t) xs
      → map_items f xs ≡ map_items g xs
  map_items_congr f g Items.no_items h = refl
  map_items_congr f g (Items.item x xs) (h, hs) =
      rw (map_texts_congr f g x h, map_items_congr f g xs hs) refl

  map_fields_congr :
      (f g : Bytes → Bytes) (xs : Fields)
      → FieldTexts (λ t. f t ≡ g t) xs
      → map_fields f xs ≡ map_fields g xs
  map_fields_congr f g Fields.no_fields h = refl
  map_fields_congr f g (Fields.field k x xs) (h, hs) =
      rw (map_texts_congr f g x h, map_fields_congr f g xs hs) refl

mutual
  Texts-map : (P Q : Bytes → Type 0) (v : Json) → ((t : Bytes) → P t → Q t) → Texts P v → Texts Q v
  Texts-map P Q Json.null f h = tt
  Texts-map P Q (Json.bool b) f h = tt
  Texts-map P Q (Json.number n) f h = tt
  Texts-map P Q (Json.text t) f h = f t h
  Texts-map P Q (Json.array xs) f h = ItemTexts-map P Q xs f h
  Texts-map P Q (Json.object xs) f h = FieldTexts-map P Q xs f h

  ItemTexts-map :
      (P Q : Bytes → Type 0) (xs : Items)
      → ((t : Bytes) → P t → Q t)
      → ItemTexts P xs
      → ItemTexts Q xs
  ItemTexts-map P Q Items.no_items f h = tt
  ItemTexts-map P Q (Items.item x xs) f (h, hs) = (Texts-map P Q x f h, ItemTexts-map P Q xs f hs)

  FieldTexts-map :
      (P Q : Bytes → Type 0) (xs : Fields)
      → ((t : Bytes) → P t → Q t)
      → FieldTexts P xs
      → FieldTexts Q xs
  FieldTexts-map P Q Fields.no_fields f h = tt
  FieldTexts-map P Q (Fields.field k x xs) f (h, hs) =
      (Texts-map P Q x f h, FieldTexts-map P Q xs f hs)

module _ (coder : Coder) (c : Canonicalizer) (size : Bytes → ℕ)
    (trimmed : (t : Bytes) → size (trim_space t) ≤ size t)
    (smaller : (s : Bytes) (v : Json)
      → coder.unmarshal s ≡ some v
      → Texts (λ t. size t < size s) v) where
  same_nested :
      (n k : ℕ) (t : Bytes)
      → ((u : Bytes) → size u < size t → normalize_text coder c n u ≡ normalize_text coder c k u)
      → normalize_nested coder c (map_texts (normalize_text coder c n)) t
        ≡ normalize_nested coder c (map_texts (normalize_text coder c k)) t
  unfolding normalize_nested
  same_nested n k t h = elim (Option-cases (coder.unmarshal (trim_space t))) [
    | inl e ↦ rw e refl
    | inr (v, e) ↦
        let le = trimmed t in
        let texts =
          Texts-map (λ u. size u < size (trim_space t))
            (λ u. normalize_text coder c n u ≡ normalize_text coder c k u) v
            (λ u lt. h u (omega (arith, le))) (smaller (trim_space t) v e) in
        let walk = map_texts_congr (normalize_text coder c n) (normalize_text coder c k) v texts in
        rw e (
          ap
            (λ w.
              if not (looks_nested coder c (trim_space t)) then [] else or_empty (coder.marshal w))
            walk)
  ]

  same_depth :
      (n k : ℕ) (t : Bytes)
      → size t < n
      → size t < k
      → normalize_text coder c n t ≡ normalize_text coder c k t
  unfolding normalize_text
  same_depth zero k t h g = ground arith
  same_depth (suc n) zero t h g = ground arith
  same_depth (suc n) (suc k) t h g =
      ap (λ nested. nested_or coder c nested t)
        (same_nested n k t (λ u lt. same_depth n k u (omega arith) (omega arith)))

  -- The recursion into nested documents ends. If the texts of a document are smaller than the document
  -- for some measure, and trimming makes no text larger, then every depth from the measure of the
  -- document on gives the same normal form.
  pub normalize-enough :
      (n k : ℕ) (s : Bytes)
      → size s ≤ n
      → size s ≤ k
      → normalize coder c n s ≡ normalize coder c k s
  unfolding normalize normalize_value
  normalize-enough n k s h g = elim (Option-cases (coder.unmarshal s)) [
    | inl e ↦ rw e refl
    | inr (v, e) ↦ rw e (
        ap coder.marshal (
          map_texts_congr (normalize_text coder c n) (normalize_text coder c k) v (
            Texts-map (λ u. size u < size s)
              (λ u. normalize_text coder c n u ≡ normalize_text coder c k u) v
              (λ u lt. same_depth n k u (omega arith) (omega arith)) (smaller s v e))))
  ]
