-- ===== src/Tests/Texts.antt =====
-- The replacement of tokens in a text.
use nexustal.Execution.Replace.Laws.{replace_all-one_pass, one_pass}
use nexustal.Execution.Replace.{replace_all}
use nexustal.Common.{ℕ, List, ◌+◌, ◌≡◌, ◌≢◌, [], ◌∷◌, arith, lit}

unsized : lit "{{$guid}}" ≢ []
unfolding lit
unsized e = absurd (ground arith)

replace_all-one_pass_example :
    replace_all (lit "a{{$guid}}b{{$guid}}") (lit "{{$guid}}") (λ calls. (b'0' + calls) ∷ [])
    ≡ one_pass (lit "{{$guid}}") (λ calls. (b'0' + calls) ∷ []) 0 0 (lit "a{{$guid}}b{{$guid}}")
replace_all-one_pass_example =
    replace_all-one_pass (lit "{{$guid}}") (λ calls. (b'0' + calls) ∷ [])
      (lit "a{{$guid}}b{{$guid}}") unsized

abbrev draws : List ℕ
draws = 0 ∷ 1 ∷ 2 ∷ 3 ∷ 4 ∷ 5 ∷ 6 ∷ 7 ∷ 8 ∷ 9 ∷ 10 ∷ 11 ∷ 12 ∷ 13 ∷ 14 ∷ 255 ∷ []
