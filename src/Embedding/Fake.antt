-- ===== src/Embedding/Fake.antt =====
-- internal/embedding/fake.go: the provider for tests and local runs. float64, sha256 with rand.NewChaCha8
-- and NormFloat64, and the splitting of a text into words are parameters; `normals w i` is the number
-- with the index `i` that the generator seeded with the word `w` gives.
use near_real_time_hybrid_se.Common.{
  ℕ, zero, suc, Bool, List, [], ◌∷◌, map, Option, none, some, if◌then◌else◌,
}
use near_real_time_hybrid_se.Common.Bytes.{Bytes}
use near_real_time_hybrid_se.Common.Trim.{trim_space, is_empty}
use near_real_time_hybrid_se.Errors.{Err, Sentinel, sentinel, wrap}
use near_real_time_hybrid_se.Cdc.Mapping.{Result, ok, err}
use near_real_time_hybrid_se.Qdrant.{Float32}
use near_real_time_hybrid_se.Embedding.{check_vector}

-- `fields` is strings.FieldsFunc on the lower case of the text, at what is no letter and no digit.
pub record Generator (f : Float32) : Type 1 where
  pub F : Type 0
  pub nought : F
  pub add : F → F → F
  pub mul : F → F → F
  pub divide : F → F → F
  pub sqrt : F → F
  pub is_nought : F → Bool
  pub to_float32 : F → f.Value
  pub normals : Bytes → ℕ → F
  pub fields : Bytes → List Bytes

module _ (f : Float32) (g : Generator f) where
  -- words.
  unfoldable pub words : Bytes → List Bytes
  unfolding trim_space
  words text = elim (g.fields text) [ [] ↦ trim_space text ∷ [] | w ∷ ws ↦ w ∷ ws ]

  -- make([]float64, dimension).
  unfoldable pub noughts : ℕ → List g.F
  noughts zero = []
  noughts (suc n) = g.nought ∷ noughts n

  -- addWordVector, from the index `i` on.
  unfoldable pub add_word_vector : ℕ → Bytes → List g.F → List g.F
  add_word_vector i word [] = []
  add_word_vector i word (x ∷ xs) = g.add x (g.normals word i) ∷ add_word_vector (suc i) word xs

  unfoldable pub add_words : List Bytes → List g.F → List g.F
  unfolding add_word_vector
  add_words [] sum = sum
  add_words (w ∷ ws) sum = add_words ws (add_word_vector 0 w sum)

  -- The loop that adds up the squares.
  unfoldable pub squares : g.F → List g.F → g.F
  squares norm [] = norm
  squares norm (x ∷ xs) = squares (g.add norm (g.mul x x)) xs

  unfoldable pub scaled : g.F → List g.F → List f.Value
  scaled norm = map λ x. g.to_float32 (g.divide x norm)

  abbrev pub checked : ℕ → List f.Value → Result (List f.Value)
  checked dimension v = elim (check_vector f v dimension) [ some e ↦ err (wrap e) | none ↦ ok v ]

  -- The end of Embed, on the sum of the words' vectors.
  unfoldable pub normalise : ℕ → List g.F → Result (List f.Value)
  unfolding squares scaled check_vector
  normalise dimension sum =
      let norm = g.sqrt (squares g.nought sum) in
      if g.is_nought norm
      then err (wrap (sentinel Sentinel.invalid_response))
      else checked dimension (scaled norm sum)

  -- FakeProvider.Embed, with what the context says.
  unfoldable pub fake_embed : ℕ → Option Err → Bytes → Result (List f.Value)
  unfolding trim_space is_empty words noughts add_words normalise
  fake_embed dimension ctx text =
      if is_empty (trim_space text) then err (sentinel Sentinel.empty_text) else elim ctx [
        | some e ↦ err (wrap e)
        | none ↦ normalise dimension (add_words (words text) (noughts dimension))
      ]
