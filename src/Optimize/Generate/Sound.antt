-- ===== src/Optimize/Generate/Sound.antt =====
-- internal/optimize/llm.go: what the loop over the proposals keeps true of the candidates.
use harnesslab.Optimize.Generate.{
  file_of, Candidate, Generated, SkipReason, was_seen, skip, with_name, add_candidate, mark_seen,
}
use harnesslab.Spec.Types.{HarnessSpec}
use harnesslab.Spec.Valid.{IsValid}
use harnesslab.Shared.Float.{Floats}
use harnesslab.Shared.Text.{bytes_beq, bytes_beq_refl}
use harnesslab.Shared.{
  String, Bool, false, ◌≡◌, ◌≢◌, refl, sym, ap, ◌∙◌, List, [], ◌∷◌, ◌++◌, map, Bytes, All,
  All-append, In, any, any-In, ◌==◌, string_eq, bytes_eq, nat_eq,
}
use harnesslab.Optimize.Generate.Names.{IsName, Distinct, Distinct-snoc, file_of-cancel}

with_name-IsValid :
    (F : Floats) (is_duration : String → Bool) (text : Bytes → String) (name : Bytes)
    (s : HarnessSpec F)
    → IsValid F is_duration s
    → IsValid F is_duration (with_name F text name s)
with_name-IsValid F is_duration text name s h = rw h.name h

module _ {M H : Type 0} (F : Floats) (is_duration : String → Bool) where
  -- A valid specification, in a file that is named after a name among `seen`.
  pub record IsUsable (seen : Bytes → Type 0) (c : Candidate F M H) : Type 0 where
    pub name : Bytes
    pub file : c.file ≡ file_of name
    pub is_name : IsName name
    pub is_seen : seen name
    pub is_valid : IsValid F is_duration c.spec

  abbrev pub files : List (Candidate F M H) → List Bytes
  files = map (λ c. c.file)

  pub record Sound (g : Generated F M H) : Type 0 where
    pub usable : All (IsUsable (λ n. In n g.seen)) g.candidates
    pub distinct : Distinct (files g.candidates)

  pub IsUsable-weaken :
      {P Q : Bytes → Type 0}
      → ((n : Bytes) → P n → Q n)
      → (cs : List (Candidate F M H)) → All (IsUsable P) cs
      → All (IsUsable Q) cs
  IsUsable-weaken sub [] h = tt
  IsUsable-weaken sub (c ∷ cs) (u, h) = (
    record {
      name = u.name;
      file = u.file;
      is_name = u.is_name;
      is_seen = sub u.name u.is_seen;
      is_valid = u.is_valid;
    },
    IsUsable-weaken sub cs h,
  )

  files-append : (cs ds : List (Candidate F M H)) → files (cs ++ ds) ≡ files cs ++ files ds
  files-append [] ds = refl
  files-append (c ∷ cs) ds = ap (λ fs. c.file ∷ fs) (files-append cs ds)

  -- A name that was not seen is not the name of a file.
  fresh_file :
      (name : Bytes) (seen : List Bytes)
      → any (λ n. n == name) seen ≡ false
      → (cs : List (Candidate F M H)) → All (IsUsable (λ n. In n seen)) cs
      → All (λ y. y ≢ file_of name) (files cs)
  fresh_file name seen e [] h = tt
  fresh_file name seen e (c ∷ cs) (u, h) = (
    λ same.
        let twin = file_of-cancel u.name name (sym u.file ∙ same) in
        let hit =
          any-In (λ n. n == name) u.is_seen
            (ap (λ n. bytes_beq n name) twin ∙ bytes_beq_refl name) in
        absurd (cc (hit, e)),
    fresh_file name seen e cs h,
  )

  pub mark_seen-Sound :
      (name : Bytes) (g : Generated F M H) → Sound g → Sound (record g { seen = name ∷ g.seen })
  mark_seen-Sound name g h = record {
    usable = IsUsable-weaken (λ n i. In.there i) g.candidates h.usable;
    distinct = h.distinct;
  }

  pub add_candidate-Sound :
      (text : Bytes → String) (name : Bytes) (metadata : M) (s : HarnessSpec F)
      (g : Generated F M H)
      → IsName name
      → was_seen name g ≡ false
      → IsValid F is_duration s
      → Sound g
      → Sound (add_candidate text name metadata s (mark_seen name g))
  add_candidate-Sound text name metadata s g is_name fresh is_valid h =
      let new : Candidate F M H = record {
        file = file_of name;
        metadata = metadata;
        spec = with_name F text name s;
      } in
      record {
        usable =
            All-append (IsUsable (λ n. In n (name ∷ g.seen))) g.candidates (new ∷ [])
              (mark_seen-Sound name g h).usable
              (
                record {
                  name = name;
                  file = refl;
                  is_name = is_name;
                  is_seen = In.here refl;
                  is_valid = with_name-IsValid F is_duration text name s is_valid;
                },
                tt,
              );
        distinct = rw (files-append g.candidates (new ∷ [])) (
            Distinct-snoc (files g.candidates) (file_of name) h.distinct
              (fresh_file name g.seen fresh g.candidates h.usable));
      }

  pub skip-Sound :
      (name : Bytes) (reason : SkipReason) (g : Generated F M H)
      → Sound g
      → Sound (skip name reason g)
  skip-Sound name reason g h = record { usable = h.usable; distinct = h.distinct }
