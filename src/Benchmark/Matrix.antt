-- ===== src/Benchmark/Matrix.antt =====
-- internal/benchmark/matrix.go: the variants of a harness. A choice sets one field of the copy of the
-- base specification that a variant gets.
pub mod Product
mod Tests
use harnesslab.Spec.Types.{HarnessSpec}
use harnesslab.Shared.Text.{bytes_beq}
use harnesslab.Shared.Float.{Floats}
use harnesslab.Shared.Lexical.{has_suffix}
use harnesslab.Shared.{
  ◌-◌, not, Option, none, some, take, length, ◌⊎◌, inl, inr, String, Bool, true, false, List, [],
  ◌∷◌, ◌++◌, map, Bytes, bytes, bytes_eq, string_eq, ◌==◌, if◌then◌else◌,
}

pub record Matrix : Type 0 where
  pub model : List String
  pub planning : List String
  pub verification : List String
  pub tools_shell : List Bool
  pub tools_filesystem : List Bool
  pub harness : List Bytes

-- `fmt.Sprintf("%v", v)`
abbrev bool_text : Bool → Bytes
bool_text true = bytes "true"
bool_text false = bytes "false"

module _ (F : Floats) where
  pub record Variant : Type 0 where
    pub name : Bytes
    pub spec : HarnessSpec F

  pub record Choice : Type 0 where
    pub dim : Bytes
    pub value : Bytes
    pub apply : HarnessSpec F → HarnessSpec F

  -- The assignments of the closures.
  abbrev pub set_model : String → HarnessSpec F → HarnessSpec F
  set_model v s = record s { model = record s.model { name = v } }

  abbrev pub set_planning : String → HarnessSpec F → HarnessSpec F
  set_planning v s = record s { planning = v }

  abbrev pub set_verification : String → HarnessSpec F → HarnessSpec F
  set_verification v s = record s {
    verification = record s.verification {
      strategy = v;
      commands = if v == "none" then [] else s.verification.commands;
    };
  }

  abbrev pub set_shell : Bool → HarnessSpec F → HarnessSpec F
  set_shell v s = record s { tools = record s.tools { shell = v } }

  abbrev pub set_filesystem : Bool → HarnessSpec F → HarnessSpec F
  set_filesystem v s = record s { tools = record s.tools { filesystem = v } }

  -- One block of `Variants`: no dimension if the matrix lists no value for it.
  abbrev pub dimension :
      {V : Type 0}
      → Bytes
      → (V → Bytes)
      → (V → HarnessSpec F → HarnessSpec F)
      → List V
      → List (List Choice)
  dimension dim text set [] = []
  dimension dim text set (v ∷ vs) =
      map (λ w. record { dim = dim; value = text w; apply = set w }) (v ∷ vs) ∷ []

  unfoldable pub dims : Matrix → List (List Choice)
  dims m =
      dimension (bytes "model") bytes set_model m.model
      ++ (dimension (bytes "planning") bytes set_planning m.planning
          ++ (dimension (bytes "verification") bytes set_verification m.verification
              ++ (dimension (bytes "tools_shell") bool_text set_shell m.tools_shell
                  ++ dimension (bytes "tools_filesystem") bool_text set_filesystem
                      m.tools_filesystem)))

  -- The two inner loops over the combinations so far and the values of one dimension.
  unfoldable pub extend : List (List Choice) → List Choice → List (List Choice)
  extend [] d = []
  extend (p ∷ ps) d = map (λ c. p ++ c ∷ []) d ++ extend ps d

  unfoldable pub product : List (List Choice) → List (List Choice) → List (List Choice)
  unfolding extend
  product ps [] = ps
  product ps (d ∷ ds) = product (extend ps d) ds

  -- The loop over the choices of one combination.
  abbrev pub apply_all : List Choice → HarnessSpec F → HarnessSpec F
  apply_all [] s = s
  apply_all (c ∷ cs) s = apply_all cs (c.apply s)

  abbrev pub combo_name : Bytes → List Choice → Bytes
  combo_name name [] = name
  combo_name name (c ∷ cs) =
      combo_name
        ((if name == [] then [] else name ++ bytes "+") ++ (c.dim ++ (bytes "=" ++ c.value))) cs

  abbrev pub or_base : Bytes → Bytes
  or_base name = if name == [] then bytes "base" else name

  abbrev pub variant_of : HarnessSpec F → List Choice → Variant
  variant_of base combo = record {
    name = or_base (combo_name [] combo);
    spec = apply_all combo base;
  }

  abbrev pub variants_of : HarnessSpec F → List (List Choice) → List Variant
  variants_of base [] = record { name = bytes "base"; spec = base } ∷ []
  variants_of base (d ∷ ds) = map (variant_of base) (product ([] ∷ []) (d ∷ ds))

  unfoldable pub variants : Matrix → HarnessSpec F → List Variant
  unfolding dims product
  variants m base = variants_of base (dims m)

pub data MatrixError : Type 0 where
  bad_harness : Bytes → MatrixError
  no_harness : MatrixError

-- What `HarnessVariants` uses of `path/filepath`, and `spec.Load`, which fails on some files.
pub record Files (F : Floats) : Type 0 where
  pub is_abs : Bytes → Bool
  pub join : Bytes → Bytes → Bytes
  pub base : Bytes → Bytes
  pub ext : Bytes → Bytes
  pub load : Bytes → Option (HarnessSpec F)

module _ (F : Floats) (files : Files F) where
  -- `strings.TrimSuffix(filepath.Base(f), filepath.Ext(f))`
  abbrev pub label_of : Bytes → Bytes
  label_of f =
      let base = files.base f in
      let ext = files.ext f in
      if has_suffix base ext then take (length base - length ext) base else base

  abbrev pub resolve : Bytes → Bytes → Bytes
  resolve dir f = if not (files.is_abs f) then files.join dir f else f

  abbrev pub named_spec : Bytes → HarnessSpec F → Variant F
  named_spec f s = record { name = label_of f; spec = s }

  -- The loop, with the variants so far; an error is the harness file that was not loaded.
  unfoldable pub load_variants : Bytes → List Bytes → List (Variant F) → Bytes ⊎ List (Variant F)
  load_variants dir [] vs = inr vs
  load_variants dir (f ∷ fs) vs = elim (files.load (resolve dir f)) [
    | none ↦ inl f
    | some s ↦ load_variants dir fs (vs ++ named_spec f s ∷ [])
  ]

  abbrev not_empty : Bytes ⊎ List (Variant F) → MatrixError ⊎ List (Variant F)
  not_empty (inl f) = inl (MatrixError.bad_harness f)
  not_empty (inr []) = inl MatrixError.no_harness
  not_empty (inr (v ∷ vs)) = inr (v ∷ vs)

  unfoldable pub harness_variants : Matrix → Bytes → MatrixError ⊎ List (Variant F)
  unfolding load_variants
  harness_variants m dir = not_empty (load_variants dir m.harness [])
