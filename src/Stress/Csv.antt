-- ===== src/Stress/Csv.antt =====
-- stress.go: splitCSV. `strings.TrimSpace` is a parameter.
use atomic_queue.Prelude.{
  ℕ, ◌≡◌, refl, ◌≢◌, ◌∙◌, ap, false, List, [], ◌∷◌, ◌++◌, All, ◌==◌, arith, if◌then◌else◌,
}
use atomic_queue.Fault.{Bytes}

-- A byte in front of the first part.
abbrev pub onto_first : ℕ → List Bytes → List Bytes
onto_first c [] = (c ∷ []) ∷ []
onto_first c (part ∷ parts) = (c ∷ part) ∷ parts

-- `strings.Split` for a separator of one byte.
unfoldable pub split : ℕ → Bytes → List Bytes
split sep [] = [] ∷ []
split sep (c ∷ cs) = let rest = split sep cs in if c == sep then [] ∷ rest else onto_first c rest

abbrev pub keep_part : Bytes → List Bytes → List Bytes
keep_part [] parts = parts
keep_part (c ∷ cs) parts = (c ∷ cs) ∷ parts

module _ (trim_space : Bytes → Bytes) where
  unfoldable pub kept_parts : List Bytes → List Bytes
  kept_parts [] = []
  kept_parts (part ∷ parts) = keep_part (trim_space part) (kept_parts parts)

  unfoldable pub split_csv : Bytes → List Bytes
  unfolding split kept_parts
  split_csv value = kept_parts (split b',' value)

-- The parts with a separator between them.
abbrev pub join : ℕ → List Bytes → Bytes
join sep [] = []
join sep (part ∷ []) = part
join sep (part ∷ next ∷ parts) = part ++ sep ∷ join sep (next ∷ parts)

abbrev pub Lacks : ℕ → Bytes → Type 0
Lacks sep = All (λ c. (c == sep) ≡ false)

split-part :
    (sep : ℕ) (part rest : Bytes)
    → Lacks sep part
    → split sep (part ++ sep ∷ rest) ≡ part ∷ split sep rest
unfolding split
split-part sep [] rest h = ground arith
split-part sep (c ∷ part) rest h = rw h.0 (ap (onto_first c) (split-part sep part rest h.1))

split-last : (sep : ℕ) (part : Bytes) → Lacks sep part → split sep part ≡ part ∷ []
unfolding split
split-last sep [] h = refl
split-last sep (c ∷ part) h = rw h.0 (ap (onto_first c) (split-last sep part h.1))

split-join :
    (sep : ℕ) (part : Bytes) (parts : List Bytes)
    → All (Lacks sep) (part ∷ parts)
    → split sep (join sep (part ∷ parts)) ≡ part ∷ parts
split-join sep part [] h = split-last sep part h.0
split-join sep part (next ∷ parts) h =
    split-part sep part (join sep (next ∷ parts)) h.0
    ∙ ap (◌∷◌ part) (split-join sep next parts h.1)

-- A channel that is not empty and that trimming leaves as it is.
abbrev pub IsTrimmed : (Bytes → Bytes) → Bytes → Type 0
IsTrimmed trim_space part = (trim_space part ≡ part) × (part ≢ [])

kept_parts-trimmed :
    (trim_space : Bytes → Bytes) (parts : List Bytes)
    → All (IsTrimmed trim_space) parts
    → kept_parts trim_space parts ≡ parts
unfolding kept_parts
kept_parts-trimmed trim_space [] h = refl
kept_parts-trimmed trim_space ([] ∷ parts) h = absurd (h.0.1 refl)
kept_parts-trimmed trim_space ((c ∷ part) ∷ parts) h =
    rw h.0.0 (ap (◌∷◌ (c ∷ part)) (kept_parts-trimmed trim_space parts h.1))

-- Channels with no comma in them, none empty and none that trimming changes, are what splitting
-- them gives when they are written one after the other with commas between.
pub split_csv-join :
    (trim_space : Bytes → Bytes) (channel : Bytes) (channels : List Bytes)
    → All (Lacks b',') (channel ∷ channels)
    → All (IsTrimmed trim_space) (channel ∷ channels)
    → split_csv trim_space (join b',' (channel ∷ channels)) ≡ channel ∷ channels
unfolding split_csv
split_csv-join trim_space channel channels free trimmed =
    rw (split-join b',' channel channels free)
      (kept_parts-trimmed trim_space (channel ∷ channels) trimmed)
