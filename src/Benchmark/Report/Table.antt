-- ===== src/Benchmark/Report/Table.antt =====
-- internal/benchmark/report.go: `RenderTable` and `comma`. Texts are ASCII, so that the width of a
-- column is a number of bytes; `show_duration` prints a number of milliseconds as a duration.
use harnesslab.Benchmark.Report.{VariantResult}
use harnesslab.Shared.Float.{Floats}
use harnesslab.Shared.Int64.{add64, slt64}
use harnesslab.Shared.Format.{decimal, digits_before}
use harnesslab.Shared.{
  ℕ, zero, suc, ◌+◌, ◌-◌, ◌/◌, ◌%◌, ◌^◌, ◌≡◌, refl, ap, false, not, ◌&&◌, List, [], ◌∷◌, ◌++◌,
  Bytes, bytes, nat_eq, ◌==◌, ltb, leb, length, keep, All, if◌then◌else◌, if-cases, arith,
}

abbrev spaces : ℕ → Bytes
spaces zero = []
spaces (suc n) = b' ' ∷ spaces n

-- `%-ns`
abbrev pad_right : ℕ → Bytes → Bytes
pad_right n s = s ++ spaces (n - length s)

-- `%d` of an `int64`.
unfoldable pub signed_decimal : ℕ → Bytes
unfolding slt64
signed_decimal n = if slt64 n 0 then b'-' ∷ decimal (2 ^ 64 - n) else decimal n

unfoldable pub comma_loop : ℕ → ℕ → Bytes → Bytes
comma_loop total i [] = []
comma_loop total i (c ∷ s) =
    let rest = comma_loop total (i + 1) s in
    if ltb 0 i && (total - i) % 3 == 0 then b',' ∷ c ∷ rest else c ∷ rest

unfoldable pub comma : ℕ → Bytes
unfolding comma_loop signed_decimal
comma n = let s = signed_decimal n in if leb (length s) 3 then s else comma_loop (length s) 0 s

module _ (F : Floats) (show_duration : ℕ → Bytes) where
  abbrev table_row : Bytes → Bytes → Bytes → Bytes → Bytes → Bytes → Bytes → Bytes → Bytes
  table_row name pass total ver tokens models chg time =
      pad_right 32 name
      ++ (32 ∷ pad_right 8 pass
          ++ (32 ∷ pad_right 5 total
              ++ (32 ∷ pad_right 4 ver
                  ++ (32 ∷ pad_right 10 tokens
                      ++ (32 ∷ pad_right 6 models
                          ++ (32 ∷ pad_right 5 chg ++ (32 ∷ pad_right 10 time ++ (10 ∷ []))))))))

  abbrev pass_text : VariantResult F → Bytes
  pass_text v =
      let base = decimal v.passed ++ (bytes "/" ++ decimal v.total) in
      if ltb 0 v.errored then base ++ (bytes "+" ++ (decimal v.errored ++ bytes "e")) else base

  unfoldable pub variant_row : VariantResult F → Bytes
  unfolding comma add64
  variant_row v =
      table_row (bytes v.variant) (pass_text v) (decimal v.total)
        (if ltb 0 v.total then decimal v.ver_passed else bytes "-")
        (comma (add64 v.input_tokens v.output_tokens)) (decimal v.model_calls)
        (if ltb 0 v.total then decimal v.chg_count else bytes "-") (show_duration v.duration_ms)

  abbrev table_rows : List (VariantResult F) → Bytes
  unfolding variant_row
  table_rows [] = []
  table_rows (v ∷ vs) = variant_row v ++ table_rows vs

  unfoldable pub render_table : List (VariantResult F) → Bytes
  unfolding table_rows
  render_table vs =
      table_row (bytes "Harness") (bytes "Pass") (bytes "Total") (bytes "Ver") (bytes "Tokens")
        (bytes "Models") (bytes "Chg") (bytes "Time")
      ++ table_rows vs

abbrev pub without_commas : Bytes → Bytes
without_commas s = keep (λ c. not (c == b',')) s

abbrev NoComma : Bytes → Type 0
NoComma s = All (λ c. (c == b',') ≡ false) s

digits_before-NoComma :
    (fuel n : ℕ) (tail : Bytes) → NoComma tail → NoComma (digits_before fuel n tail)
unfolding digits_before
digits_before-NoComma zero n tail h = h
digits_before-NoComma (suc fuel) n tail h =
    if-cases NoComma (ltb n 10) (λ e. (ground arith, h))
      (λ e. digits_before-NoComma fuel (n / 10) ((b'0' + n % 10) ∷ tail) (ground arith, h))

decimal-NoComma : (n : ℕ) → NoComma (decimal n)
unfolding decimal
decimal-NoComma n = digits_before-NoComma (suc n) n [] tt

signed_decimal-NoComma : (n : ℕ) → NoComma (signed_decimal n)
unfolding signed_decimal
signed_decimal-NoComma n =
    if-cases NoComma (slt64 n 0) (λ e. (refl, decimal-NoComma (2 ^ 64 - n)))
      (λ e. decimal-NoComma n)

keep-NoComma : (s : Bytes) → NoComma s → without_commas s ≡ s
keep-NoComma [] h = refl
keep-NoComma (c ∷ s) (h, hs) = rw h (ap (λ t. c ∷ t) (keep-NoComma s hs))

comma_loop-strip : (total i : ℕ) (s : Bytes) → NoComma s → without_commas (comma_loop total i s) ≡ s
unfolding comma_loop
comma_loop-strip total i [] h = refl
comma_loop-strip total i (c ∷ s) (h, hs) =
    let e : without_commas (c ∷ comma_loop total (i + 1) s) ≡ c ∷ s =
      rw h (ap (λ t. c ∷ t) (comma_loop-strip total (i + 1) s hs)) in
    if-cases (λ t. without_commas t ≡ c ∷ s) (ltb 0 i && (total - i) % 3 == 0) (λ _. e) (λ _. e)

-- The commas that `comma` puts in are all that it adds: without them its text is that of the number.
pub comma-strip : (n : ℕ) → without_commas (comma n) ≡ signed_decimal n
unfolding comma
comma-strip n =
    let s = signed_decimal n in
    let h = signed_decimal-NoComma n in
    if-cases (λ t. without_commas t ≡ s) (leb (length s) 3) (λ _. keep-NoComma s h)
      (λ _. comma_loop-strip (length s) 0 s h)
