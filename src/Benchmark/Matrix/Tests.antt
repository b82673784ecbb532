-- ===== src/Benchmark/Matrix/Tests.antt =====
-- internal/benchmark/matrix.go: two strategies with and without the shell.
use harnesslab.Benchmark.Matrix.{Matrix, variants}
use harnesslab.Benchmark.Matrix.Product.{enumeration, variants-enumeration}
use harnesslab.Spec.Tests.{minimal}
use harnesslab.Shared.Text.{bytes_beq}
use harnesslab.Shared.Float.{whole_floats}
use harnesslab.Shared.{◌≡◌, refl, true, false, [], ◌∷◌, map, bytes}

abbrev two_by_two : Matrix
two_by_two = record {
  model = [];
  planning = [];
  verification = "final" ∷ "none" ∷ [];
  tools_shell = true ∷ false ∷ [];
  tools_filesystem = [];
  harness = [];
}

names :
    map (λ v. v.name) (variants whole_floats two_by_two minimal)
    ≡ bytes "verification=final+tools_shell=true"
      ∷ bytes "verification=final+tools_shell=false"
      ∷ bytes "verification=none+tools_shell=true"
      ∷ bytes "verification=none+tools_shell=false"
      ∷ []
unfolding variants bytes_beq
names = refl

variants-enumeration_example :
    map (λ v. v.spec) (variants whole_floats two_by_two minimal)
    ≡ enumeration whole_floats two_by_two minimal
variants-enumeration_example = variants-enumeration whole_floats two_by_two minimal
