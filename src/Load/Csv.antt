-- ===== src/Load/Csv.antt =====
-- examples/go/stress/main.go: its splitCSV beside that of stress.go.
use atomic_queue.Prelude.{
  ℕ, ◌≡◌, refl, sym, ap, ◌∙◌, Bool-cases, inl, inr, List, [], ◌∷◌, ◌++◌, append-nil, append_assoc,
  All, ◌==◌,
}
use atomic_queue.Fault.{Bytes}
use atomic_queue.Stress.Csv.{onto_first, split, keep_part, kept_parts, split_csv as plain_split_csv}
use atomic_queue.Load.{
  trim_spaces, drop_spaces, drop_last_spaces, add_part, scan, or_default, split_csv,
}

-- The parts when `part` stands in front of the first.
abbrev before : Bytes → List Bytes → List Bytes
before part [] = part ∷ []
before part (p ∷ ps) = (part ++ p) ∷ ps

before-onto_first :
    (part : Bytes) (c : ℕ) (ps : List Bytes)
    → before part (onto_first c ps) ≡ before (part ++ c ∷ []) ps
before-onto_first part c [] = refl
before-onto_first part c (p ∷ ps) = ap (λ x. x ∷ ps) (sym (append_assoc part (c ∷ []) p))

before-nil : (c : ℕ) (ps : List Bytes) → before [] (onto_first c ps) ≡ onto_first c ps
before-nil c [] = refl
before-nil c (p ∷ ps) = refl

before-split : (sep : ℕ) (cs : Bytes) → before [] (split sep cs) ≡ split sep cs
unfolding split
before-split sep [] = refl
before-split sep (c ∷ cs) = elim (Bool-cases (c == sep)) [
  | inl e ↦ rw e refl
  | inr e ↦ rw e (before-nil c (split sep cs))
]

add_part-keep_part :
    (part : Bytes) (out parts : List Bytes)
    → add_part part out ++ parts ≡ out ++ keep_part part parts
add_part-keep_part [] out parts = refl
add_part-keep_part (c ∷ cs) out parts = append_assoc out ((c ∷ cs) ∷ []) parts

-- The loop is a split at commas, and a trim of each part.
scan-kept_parts :
    (part rest : Bytes) (out : List Bytes)
    → scan part rest out ≡ out ++ kept_parts trim_spaces (before part (split b',' rest))
unfolding scan split kept_parts
scan-kept_parts part [] out = rw (append-nil part) (
    sym (append-nil (add_part (trim_spaces part) out))
    ∙ add_part-keep_part (trim_spaces part) out [])
scan-kept_parts part (c ∷ cs) out = elim (Bool-cases (c == b',')) [
  | inl e ↦
      rw (e, append-nil part)
        (scan-kept_parts [] cs (add_part (trim_spaces part) out)
          ∙ ap (λ ps. add_part (trim_spaces part) out ++ kept_parts trim_spaces ps)
              (before-split b',' cs)
          ∙ add_part-keep_part (trim_spaces part) out (kept_parts trim_spaces (split b',' cs)))
  | inr e ↦ rw e (
      scan-kept_parts (part ++ c ∷ []) cs out
      ∙ ap (λ ps. out ++ kept_parts trim_spaces ps)
          (sym (before-onto_first part c (split b',' cs))))
]

kept_parts-agrees :
    (trim_space : Bytes → Bytes) (parts : List Bytes)
    → All (λ part. trim_space part ≡ trim_spaces part) parts
    → kept_parts trim_spaces parts ≡ kept_parts trim_space parts
unfolding kept_parts
kept_parts-agrees trim_space [] h = refl
kept_parts-agrees trim_space (part ∷ parts) h =
    rw (h.0, kept_parts-agrees trim_space parts h.1) refl

-- When the parts between the commas have no other blanks at their ends than spaces, so that
-- `strings.TrimSpace` cuts off what the loops of the example cut off, the example finds the channels
-- that `stress` finds, and a default channel where `stress` finds none.
pub split_csv-agrees :
    (trim_space : Bytes → Bytes) (value : Bytes)
    → All (λ part. trim_space part ≡ trim_spaces part) (split b',' value)
    → split_csv value ≡ or_default (plain_split_csv trim_space value)
unfolding split_csv plain_split_csv split kept_parts trim_spaces drop_spaces drop_last_spaces
split_csv-agrees trim_space [] h = rw h.0 refl
split_csv-agrees trim_space (c ∷ cs) h = ap or_default (
    scan-kept_parts [] (c ∷ cs) []
    ∙ ap (kept_parts trim_spaces) (before-split b',' (c ∷ cs))
    ∙ kept_parts-agrees trim_space (split b',' (c ∷ cs)) h)
