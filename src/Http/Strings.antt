-- ===== src/Http/Strings.antt =====
-- What the handlers use of the package strings: Contains, Split and Replace.
pub mod Splitting
use coap_gateway.Prelude.{
  ℕ, zero, suc, ◌-◌, Bool, true, false, ◌&&◌, ◌||◌, List, [], ◌∷◌, ◌++◌, length, ◌==◌, map,
  if◌then◌else◌,
}
use coap_gateway.Prelude.Text.{Text}

unfoldable pub has_prefix : Text → Text → Bool
has_prefix [] s = true
has_prefix (a ∷ p) [] = false
has_prefix (a ∷ p) (b ∷ s) = a == b && has_prefix p s

-- strings.Contains(s, sub)
unfoldable pub contains : Text → Text → Bool
unfolding has_prefix
contains [] sub = has_prefix sub []
contains (a ∷ s) sub = has_prefix sub (a ∷ s) || contains s sub

-- The fields of a text, where the first of them starts with what was read before and `skip` bytes
-- belong to the separator just found.
unfoldable pub split_from : Text → ℕ → Text → Text → List Text
unfolding has_prefix
split_from sep skip read [] = read ∷ []
split_from sep (suc skip) read (a ∷ s) = split_from sep skip read s
split_from sep zero read (a ∷ s) = elim (has_prefix sep (a ∷ s)) [
  | true ↦ read ∷ split_from sep (length sep - 1) [] s
  | false ↦ split_from sep zero (read ++ a ∷ []) s
]

-- strings.Split(s, sep) for a separator that is not empty
abbrev pub split : Text → Text → List Text
split s sep = split_from sep zero [] s

-- strings.Replace(s, old, new, -1) for two single bytes
abbrev pub replace_byte : Text → ℕ → ℕ → Text
replace_byte s old new = map (λ c. if c == old then new else c) s
