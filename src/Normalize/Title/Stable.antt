-- ===== src/Normalize/Title/Stable.antt =====
-- `ParseTitle` on a title that it has normalized.
use devsignal.Prelude.{
  ℕ, ◌≡◌, refl, ap, ◌∙◌, false, inl, inr, Bool-cases, [], ◌∷◌, map, All, All-map, arith, ltb,
}
use devsignal.Prelude.Text.{Text, to_lower, to_lower_rune, is_empty}
use devsignal.Normalize.Title.{replaced, normalize_space, parse_normalized, parse_title}
use devsignal.Normalize.Title.Spaces.{map_fixed, spaced, spaced-spaced, All-spaced}

-- What the code relies on of Go's table: a lower case letter is its own lower case.
abbrev pub IsSettled : (ℕ → ℕ) → Type 0
IsSettled unicode = (c : ℕ) → ltb c 128 ≡ false → to_lower_rune unicode (unicode c) ≡ unicode c

module _ (unicode : ℕ → ℕ) (settled : IsSettled unicode) where
  abbrev IsKept : ℕ → Type 0
  IsKept c = (to_lower_rune unicode c ≡ c) × (replaced c ≡ c)

  lower_twice : (c : ℕ) → to_lower_rune unicode (to_lower_rune unicode c) ≡ to_lower_rune unicode c
  unfolding to_lower_rune
  lower_twice c = elim (Bool-cases (ltb c 128)) [
    | inl e ↦ ground arith
    | inr e ↦ rw e (settled c e)
  ]

  replaced_cases : (c : ℕ) → to_lower_rune unicode c ≡ c → IsKept (replaced c)
  unfolding replaced to_lower_rune
  replaced_cases c h = ground arith

  IsKept-space : IsKept 32
  unfolding replaced to_lower_rune
  IsKept-space = (refl, refl)

  All-IsKept : (raw : Text) → All IsKept (normalize_space (to_lower unicode raw))
  unfolding normalize_space spaced to_lower
  All-IsKept raw =
      All-spaced IsKept (map replaced (map (to_lower_rune unicode) raw)) IsKept-space
        (kept_text raw)
    where
      kept_text : (s : Text) → All IsKept (map replaced (map (to_lower_rune unicode) s))
      kept_text [] = tt
      kept_text (c ∷ s) = (replaced_cases (to_lower_rune unicode c) (lower_twice c), kept_text s)

  normalize_again :
      (raw : Text)
      → let s = normalize_space (to_lower unicode raw) in normalize_space (to_lower unicode s) ≡ s
  unfolding normalize_space spaced to_lower
  normalize_again raw =
      let s = normalize_space (to_lower unicode raw) in
      let kept = All-IsKept raw in
      let lowered =
        map_fixed (to_lower_rune unicode) s
          (All-map (λ c. IsKept c) (λ c. to_lower_rune unicode c ≡ c) s (λ c h. h.0) kept) in
      let replaced_same =
        map_fixed replaced s (All-map (λ c. IsKept c) (λ c. replaced c ≡ c) s (λ c h. h.1) kept) in
      ap (λ t. spaced (map replaced t)) lowered
      ∙ ap spaced replaced_same
      ∙ spaced-spaced (map replaced (to_lower unicode raw))

  normalized_lem : (n : Text) → (parse_normalized n).normalized ≡ n
  unfolding parse_normalized
  normalized_lem n = elim (Bool-cases (is_empty n)) [ inl e ↦ rw e refl | inr e ↦ rw e refl ]

  -- ParseTitle is idempotent: parsing the normalized form of a title gives what parsing the title
  -- gave, where no lower case letter of Go's table has another lower case.
  pub parse_title-parse_title :
      (raw : Text)
      → parse_title unicode (parse_title unicode raw).normalized ≡ parse_title unicode raw
  unfolding parse_title
  parse_title-parse_title raw =
      ap (λ n. parse_normalized (normalize_space (to_lower unicode n)))
        (normalized_lem (normalize_space (to_lower unicode raw)))
      ∙ ap parse_normalized (normalize_again raw)
