-- ===== src/Retrieval/Samples.antt =====
-- A platform for the tests: scores are whole hundredths, a text comes before the longer ones, and
-- every digest is 64 zeros.
use la_muni_rag.Base.{ℕ, zero, suc, ◌+◌, ◌*◌, ◌/◌, false, [], ◌∷◌, length, ltb, ◌==◌, if◌then◌else◌}
use la_muni_rag.Base.Text.{Text}
use la_muni_rag.Retrieval.Types.{Floats}
use la_muni_rag.Retrieval.Score.{Sign, negative, zero_sign}

abbrev pub hundredths : Floats
hundredths = record {
  Num = ℕ;
  dec = λ a b. a * 100 / b;
  add = λ a b. a + b;
  mul = λ a b. a * b / 100;
  div = λ a b. a * 100 / b;
  maximum = λ a b. if ltb a b then b else a;
  minimum = λ a b. if ltb a b then a else b;
  is_nan = λ a. false;
  num_eq = λ a b. a == b;
  num_lt = ltb;
}

abbrev pub by_length : Text → Text → Sign
by_length s t = if ltb (length s) (length t) then negative else zero_sign

abbrev digits : ℕ → Text → Text
digits zero s = []
digits (suc n) s = b'0' ∷ digits n s

abbrev pub digest : Text → Text
digest = digits 64
