-- ===== src/Benchmark/Matrix/Product.antt =====
-- internal/benchmark/matrix.go: the variants against a plain enumeration of the settings.
use harnesslab.Spec.Types.{HarnessSpec}
use harnesslab.Benchmark.Matrix.{
  Matrix, Choice, set_model, set_planning, set_verification, set_shell, set_filesystem, dimension,
  dims, extend, product, apply_all, variant_of, variants_of, variants,
}
use mathlib.Core.List.{append_assoc, append-nil, map-append, map-map}
use harnesslab.Shared.Float.{Floats}
use harnesslab.Shared.{◌≡◌, refl, ap, sym, ◌∙◌, Bytes, Option, none, some, List, [], ◌∷◌, ◌++◌, map}

-- The settings of a dimension: each listed value, or the one of the base if none is listed.
abbrev pub options : {V : Type 0} → List V → List (Option V)
options [] = none ∷ []
options (v ∷ vs) = map some (v ∷ vs)

abbrev pub each : {A B : Type 0} → (A → List B) → List A → List B
each f [] = []
each f (x ∷ xs) = f x ++ each f xs

module _ (F : Floats) where
  abbrev pub set_if :
      {V : Type 0} → (V → HarnessSpec F → HarnessSpec F) → Option V → HarnessSpec F → HarnessSpec F
  set_if set none s = s
  set_if set (some v) s = set v s

  -- One specification for every way to choose a setting for each of the five dimensions, the last
  -- dimension varying fastest.
  abbrev pub enumeration : Matrix → HarnessSpec F → List (HarnessSpec F)
  enumeration m base =
      each
        (λ a.
          each
            (λ b.
              each
                (λ c.
                  each
                    (λ d.
                      each
                        (λ e.
                          set_if (set_filesystem F) e (
                            set_if (set_shell F) d (
                              set_if (set_verification F) c
                                (set_if (set_planning F) b (set_if (set_model F) a base))))
                          ∷ [])
                        (options m.tools_filesystem))
                    (options m.tools_shell))
                (options m.verification))
            (options m.planning))
        (options m.model)

  -- The specifications that the combinations of `ds` make of those of `ss`.
  spread : List (HarnessSpec F) → List (List (Choice F)) → List (HarnessSpec F)
  spread ss [] = ss
  spread ss (d ∷ ds) = spread (each (λ s. map (λ c. c.apply s) d) ss) ds

  apply_all-snoc :
      (p : List (Choice F)) (c : Choice F) (s : HarnessSpec F)
      → apply_all F (p ++ c ∷ []) s ≡ c.apply (apply_all F p s)
  apply_all-snoc [] c s = refl
  apply_all-snoc (d ∷ p) c s = apply_all-snoc p c (d.apply s)

  map-combos :
      (base : HarnessSpec F) (p d : List (Choice F))
      → map (λ q. apply_all F q base) (map (λ c. p ++ c ∷ []) d)
        ≡ map (λ c. c.apply (apply_all F p base)) d
  map-combos base p [] = refl
  map-combos base p (c ∷ d) = rw (apply_all-snoc p c base, map-combos base p d) refl

  map-extend :
      (base : HarnessSpec F) (ps : List (List (Choice F))) (d : List (Choice F))
      → map (λ q. apply_all F q base) (extend F ps d)
        ≡ each (λ s. map (λ c. c.apply s) d) (map (λ q. apply_all F q base) ps)
  unfolding extend
  map-extend base [] d = refl
  map-extend base (p ∷ ps) d =
      map-append (λ q. apply_all F q base) (map (λ c. p ++ c ∷ []) d) (extend F ps d)
      ∙ rw (map-combos base p d, map-extend base ps d) refl

  map-product :
      (base : HarnessSpec F) (ps ds : List (List (Choice F)))
      → map (λ q. apply_all F q base) (product F ps ds)
        ≡ spread (map (λ q. apply_all F q base) ps) ds
  unfolding product spread
  map-product base ps [] = refl
  map-product base ps (d ∷ ds) =
      map-product base (extend F ps d) ds ∙ rw (map-extend base ps d) refl

each-append :
    {A B : Type 0} (f : A → List B) (xs ys : List A) → each f (xs ++ ys) ≡ each f xs ++ each f ys
each-append f [] ys = refl
each-append f (x ∷ xs) ys =
    ap (λ l. f x ++ l) (each-append f xs ys) ∙ sym (append_assoc (f x) (each f xs) (each f ys))

each-map :
    {A B C : Type 0} (f : B → List C) (g : A → B) (xs : List A)
    → each f (map g xs) ≡ each (λ x. f (g x)) xs
each-map f g [] = refl
each-map f g (x ∷ xs) = ap (λ l. f (g x) ++ l) (each-map f g xs)

each_congr :
    {A B : Type 0} (f g : A → List B) (xs : List A) → ((x : A) → f x ≡ g x) → each f xs ≡ each g xs
each_congr f g [] h = refl
each_congr f g (x ∷ xs) h = rw (h x, each_congr f g xs h) refl

module _ (F : Floats) where
  spread-append :
      (xs ys : List (HarnessSpec F)) (ds : List (List (Choice F)))
      → spread F (xs ++ ys) ds ≡ spread F xs ds ++ spread F ys ds
  unfolding spread
  spread-append xs ys [] = refl
  spread-append xs ys (d ∷ ds) =
      ap (λ l. spread F l ds) (each-append (λ s. map (λ c. c.apply s) d) xs ys)
      ∙ spread-append (each (λ s. map (λ c. c.apply s) d) xs)
          (each (λ s. map (λ c. c.apply s) d) ys) ds

  spread-nil : (ds : List (List (Choice F))) → spread F [] ds ≡ []
  unfolding spread
  spread-nil [] = refl
  spread-nil (d ∷ ds) = spread-nil ds

  spread-each :
      (ss : List (HarnessSpec F)) (ds : List (List (Choice F)))
      → spread F ss ds ≡ each (λ s. spread F (s ∷ []) ds) ss
  spread-each [] ds = spread-nil ds
  spread-each (s ∷ ss) ds = spread-append (s ∷ []) ss ds ∙ rw (spread-each ss ds) refl

  -- A dimension spreads a specification over its settings.
  spread-dimension :
      {V : Type 0} (dim : Bytes) (text : V → Bytes) (set : V → HarnessSpec F → HarnessSpec F)
      (vs : List V) (ds : List (List (Choice F))) (s : HarnessSpec F)
      → spread F (s ∷ []) (dimension F dim text set vs ++ ds)
        ≡ each (λ o. spread F (set_if F set o s ∷ []) ds) (options vs)
  unfolding spread
  spread-dimension {V} dim text set [] ds s = sym (append-nil (spread F (s ∷ []) ds))
  spread-dimension {V} dim text set (v ∷ vs) ds s =
      let choice : V → Choice F = λ w. record { dim = dim; value = text w; apply = set w } in
      ap (λ l. spread F l ds)
        (append-nil (map (λ c. c.apply s) (map choice (v ∷ vs)))
          ∙ map-map (λ c. c.apply s) choice (v ∷ vs))
      ∙ spread-each (map (λ w. set w s) (v ∷ vs)) ds
      ∙ each-map (λ t. spread F (t ∷ []) ds) (λ w. set w s) (v ∷ vs)
      ∙ sym (each-map (λ o. spread F (set_if F set o s ∷ []) ds) some (v ∷ vs))

  spread-last :
      {V : Type 0} (dim : Bytes) (text : V → Bytes) (set : V → HarnessSpec F → HarnessSpec F)
      (vs : List V) (s : HarnessSpec F)
      → spread F (s ∷ []) (dimension F dim text set vs)
        ≡ each (λ o. set_if F set o s ∷ []) (options vs)
  unfolding spread
  spread-last dim text set vs s =
      ap (λ l. spread F (s ∷ []) l) (sym (append-nil (dimension F dim text set vs)))
      ∙ spread-dimension dim text set vs [] s

  spread-dims :
      (m : Matrix) (base : HarnessSpec F) → spread F (base ∷ []) (dims F m) ≡ enumeration F m base
  unfolding dims
  spread-dims m base =
      spread-dimension _ _ _ m.model _ base
      ∙ each_congr _ _ (options m.model) (λ a.
        spread-dimension _ _ _ m.planning _ _
        ∙ each_congr _ _ (options m.planning) (λ b.
          spread-dimension _ _ _ m.verification _ _
          ∙ each_congr _ _ (options m.verification) (λ c.
            spread-dimension _ _ _ m.tools_shell _ _
            ∙ each_congr _ _ (options m.tools_shell)
                (λ d. spread-last _ _ _ m.tools_filesystem _))))

  specs_of :
      (base : HarnessSpec F) (ds : List (List (Choice F)))
      → map (λ v. v.spec) (variants_of F base ds) ≡ spread F (base ∷ []) ds
  unfolding spread
  specs_of base [] = refl
  specs_of base (d ∷ ds) =
      map-map (λ v. v.spec) (variant_of F base) (product F ([] ∷ []) (d ∷ ds))
      ∙ map-product F base ([] ∷ []) (d ∷ ds)

  -- The variants of a matrix are one for every way to choose a listed value for each dimension that
  -- lists any, the last dimension varying fastest, and each has the base specification with its
  -- choices applied; without any dimension there is the base alone.
  pub variants-enumeration :
      (m : Matrix) (base : HarnessSpec F)
      → map (λ v. v.spec) (variants F m base) ≡ enumeration F m base
  unfolding variants
  variants-enumeration m base = specs_of base (dims F m) ∙ spread-dims m base
