-- ===== src/Text/Base.antt =====
-- Python's `str` as far as the service walks it: a text is the list of its code points.
-- Which code points are whitespace, and how one is upper-cased or case-folded, is the Unicode
-- database's matter and comes in as a `Unicode`. Python maps each code point by itself in
-- `upper` and `casefold` (one may become several), as here.
use Prim.Native.Char.{code}
use Prim.Native.Nat.{◌/◌}
use mathlib.Core.List.{reverse, flat_map}
use eq_site_cms_vk_service.Shared.{
  true, false, ◌==◌, ◌&&◌, ◌||◌, ℕ, zero, suc, ◌+◌, ◌%◌, Bool, String, List, [], ◌∷◌, ◌++◌, ltb,
  if◌then◌else◌,
}

abbrev pub Text : Type 0
Text = List ℕ

abbrev pub codes : String → Text
codes String.[] = []
codes (String.◌∷◌ c s) = code c ∷ codes s

-- `s == t`
unfoldable pub text_eq : Text → Text → Bool
text_eq [] [] = true
text_eq (a ∷ s) (b ∷ t) = a == b && text_eq s t
text_eq _ _ = false

unfoldable pub starts_with : Text → Text → Bool
starts_with s [] = true
starts_with [] (c ∷ part) = false
starts_with (d ∷ s) (c ∷ part) = (d == c) && starts_with s part

-- `part in s`
unfoldable pub contains : Text → Text → Bool
unfolding starts_with
contains [] part = starts_with [] part
contains (c ∷ s) part = starts_with (c ∷ s) part || contains s part

pub record Unicode : Type 0 where
  pub is_space : ℕ → Bool
  pub upper : ℕ → Text
  pub casefold : ℕ → Text

-- The word read so far, if it is not empty.
abbrev pub flush : Text → List Text
flush [] = []
flush (c ∷ w) = (c ∷ w) ∷ []

module _ (u : Unicode) where
  unfoldable pub lstrip : Text → Text
  lstrip [] = []
  lstrip (c ∷ s) = let rest = lstrip s in if u.is_space c then rest else c ∷ s

  -- `s.strip()`
  unfoldable pub strip : Text → Text
  unfolding lstrip
  strip s = reverse (lstrip (reverse (lstrip s)))

  -- `s.upper()`
  unfoldable pub upper : Text → Text
  upper = flat_map u.upper

  -- `s.casefold()`
  unfoldable pub casefold : Text → Text
  casefold = flat_map u.casefold

  unfoldable pub split_from : Text → Text → List Text
  split_from word [] = flush word
  split_from word (c ∷ s) =
      let at_space = split_from [] s in
      let in_word = split_from (word ++ c ∷ []) s in
      if u.is_space c then flush word ++ at_space else in_word

  -- `s.split()`: the maximal runs of characters that are not whitespace
  unfoldable pub split : Text → List Text
  unfolding split_from
  split = split_from []

-- `raw.split(separator)`, with the chunk read so far
unfoldable pub split_on_from : ℕ → Text → Text → List Text
split_on_from separator chunk [] = chunk ∷ []
split_on_from separator chunk (c ∷ s) =
    let here = split_on_from separator [] s in
    let further = split_on_from separator (chunk ++ c ∷ []) s in
    if c == separator then chunk ∷ here else further

-- `str(n)` for a natural number; the fuel `n` is never used up, as `n / 10 < n`.
decimal_from : ℕ → ℕ → Text
decimal_from zero n = (48 + n % 10) ∷ []
decimal_from (suc fuel) n =
    let more = decimal_from fuel (n / 10) ++ (48 + n % 10) ∷ [] in
    if ltb n 10 then (48 + n) ∷ [] else more

unfoldable pub decimal : ℕ → Text
unfolding decimal_from
decimal n = decimal_from n n
