-- ===== src/Common/Numbers.antt =====
-- common.py: `finite_number` and `exact_count`. Python's floats are a parameter: a type with the
-- operations that the exporter uses of them.
use where_to_tls.Base.{
  ℕ, String, Bool, not, ◌||◌, Option, Result, ok, or_raise, raise_if, ◌>>=◌, ◌>>◌, not_a_float,
  non_finite, invalid_count,
}

pub record Floats : Type 1 where
  pub Float : Type 0
  -- `float(text)`, None for its ValueError
  pub parse : String → Option Float
  -- `math.isfinite(x)`, `x < 0`, `x <= 0`, `x.is_integer()`
  pub is_finite : Float → Bool
  pub is_negative : Float → Bool
  pub is_non_positive : Float → Bool
  pub is_integer : Float → Bool
  -- `int(x)` of an x that is an integer and not negative
  pub to_ℕ : Float → ℕ
  pub of_ℕ : ℕ → Float
  pub add : Float → Float → Float
  pub mul : Float → Float → Float
  pub div : Float → Float → Float

module _ (F : Floats) where
  open F use {Float, parse, is_finite, is_negative, is_integer, to_ℕ}

  unfoldable pub finite_number : String → String → Result Float
  finite_number value context = do
    number ← or_raise (parse value) (not_a_float value)
    raise_if (not (is_finite number)) (non_finite context)
    ok number

  unfoldable pub exact_count : String → String → Result ℕ
  exact_count value context = do
    number ← finite_number value context
    raise_if (is_negative number || not (is_integer number)) (invalid_count context)
    ok (to_ℕ number)
