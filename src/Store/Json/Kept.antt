-- ===== src/Store/Json/Kept.antt =====
-- internal/store/jsonstore/jsonstore.go: the file of a run is read back.
use harnesslab.Store.{Run}
use harnesslab.Store.Interface.{Keeps, attempted}
use harnesslab.Store.Json.{Files, path, write_run, decoded_run, get_run, json_store}
use harnesslab.Shared.Float.{Floats}
use harnesslab.Shared.{
  String, Bool, true, false, ◌≡◌, refl, sym, ap, ◌∙◌, Option, none, some, Bytes, ◌==◌, string_eq,
  if◌then◌else◌,
}

same_test : (b c : Bool) → (b ≡ true → c ≡ true) → (c ≡ true → b ≡ true) → b ≡ c
same_test true c f g = sym (f refl)
same_test false true f g = g refl
same_test false false f g = refl

-- The documented behaviour of files: a file that is written is read back, and no other file changes.
pub record IsFiles (D : Files) : Type 0 where
  pub read-write :
      (p q : String) (text : Bytes) (s s' : D.State)
      → D.write_file p text s ≡ some s'
      → D.read_file q s' ≡ (if q == p then some text else D.read_file q s)

module _ (join : String → String → String) (dir : String) (IsKey : String → Type 0) where
  -- Ids that are keys have files of their own.
  abbrev pub IsApart : Type 0
  IsApart = (a b : String) → IsKey a → IsKey b → path join dir a ≡ path join dir b → a ≡ b

  same_path :
      IsApart → (a b : String) → IsKey a → IsKey b → (path join dir a == path join dir b) ≡ (a == b)
  same_path apart a b ka kb =
      let pa = path join dir a in
      let pb = path join dir b in
      same_test (pa == pb) (a == b)
        (λ h. (string_eq.decides a b).1 (apart a b ka kb ((string_eq.decides pa pb).0 h)))
        (λ h. (string_eq.decides pa pb).1 (ap (path join dir) ((string_eq.decides a b).0 h)))

module _ (F : Floats) (D : Files) (join : String → String → String) (encode : Run F → Option Bytes)
    (decode : Bytes → Option (Run F)) (dir : String) where
  -- The coder keeps the run.
  abbrev pub IsEncoded : Run F → Type 0
  IsEncoded r = (text : Bytes) × (encode r ≡ some text) × (decode text ≡ some r)

  read-written :
      IsFiles D
      → (p q : String) (text : Bytes) (s : D.State) (o : Option D.State) → D.write_file p text s ≡ o
      → (attempted s o).1 ≡ true
      → D.read_file q (attempted s o).0 ≡ (if q == p then some text else D.read_file q s)
  read-written files p q text s none w ok = cc
  read-written files p q text s (some s') w ok = files.read-write p q text s s' w

  decoded_run-if :
      (text : Bytes) (r : Run F)
      → decode text ≡ some r
      → (b : Bool) (o : Option Bytes)
      → decoded_run F D join encode decode dir (if b then some text else o)
        ≡ (if b then some r else decoded_run F D join encode decode dir o)
  decoded_run-if text r d true o = d
  decoded_run-if text r d false o = refl

  get-write :
      IsFiles D
      → (IsKey : String → Type 0) → IsApart join dir IsKey
      → (r : Run F) (s : D.State) (k : String) → IsEncoded r
      → IsKey r.id
      → IsKey k
      → (write_run F D join encode decode dir r s).1 ≡ true
      → get_run F D join encode decode dir k (write_run F D join encode decode dir r s).0
        ≡ (if k == r.id then some r else get_run F D join encode decode dir k s)
  unfolding write_run get_run
  get-write files IsKey apart r s k (text, e, d) kr kk = rw e (λ ok.
      let p = path join dir r.id in
      let q = path join dir k in
      let at = read-written files p q text s (D.write_file p text s) refl ok in
      let same = same_path join dir IsKey apart k r.id kk kr in
      ap (decoded_run F D join encode decode dir)
        (at ∙ ap (λ b. if b then some text else D.read_file q s) same)
      ∙ decoded_run-if text r d (k == r.id) (D.read_file q s))

  -- A store of files, whose writes are read back and whose ids have files of their own, keeps every run
  -- that the coder keeps: the run that is read under an id is the last one that was written for it, and a
  -- write leaves the runs of other ids alone.
  pub json_store-Keeps :
      IsFiles D
      → (IsKey : String → Type 0) → IsApart join dir IsKey
      → Keeps F (json_store F D join encode decode dir) (λ r. r) IsEncoded IsKey
  json_store-Keeps files IsKey apart = record {
    get-create = get-write files IsKey apart;
    get-update = get-write files IsKey apart;
  }
