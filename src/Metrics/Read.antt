-- ===== src/Metrics/Read.antt =====
-- A reader of the text format of the pages that src/metrics.cpp and src/exporter_metrics.cpp write: comments
-- and samples, one on a line.
pub mod Lines
use hamstercam.Base.{
  ℕ, zero, suc, ◌<◌, ◌≤◌, ◌≡◌, ◌≢◌, refl, sym, subst, ap, ◌∙◌, ◌||◌, Option, none, some, List, [],
  ◌∷◌, ◌++◌, ◌==◌, if◌then◌else◌, Bytes, All, All-append, ◌⊎◌, inl, inr, length, append_assoc,
  arith,
}
use hamstercam.Text.{split_at}
use hamstercam.Text.Split.{Lacks, split_at-append}
use hamstercam.Json.{escape}
use hamstercam.Json.Escape.{read_string, read_string-escape}
use hamstercam.Metrics.{MetricLabel, labels_text, more_labels}

pub data Entry : Type 0 where
  comment : Bytes → Entry
  sample : Bytes → List MetricLabel → Bytes → Entry

-- A name, and what stands behind it.
unfoldable pub read_name : Bytes → Bytes × Bytes
read_name [] = ([], [])
read_name (c ∷ s) =
    let (name, rest) = read_name s in
    if c == b' ' || c == b'{' then ([], c ∷ s) else (c ∷ name, rest)

-- Behind the quote that opens a value.
unfoldable pub read_value : Bytes → Bytes → Option (MetricLabel × Bytes)
read_value name [] = none
read_value name (c ∷ s) =
    if c == b'"'
    then elim (read_string s) [
      | none ↦ none
      | some (v, rest) ↦ some (record { name = name; value = v }, rest)
    ]
    else none

unfoldable pub read_label : Bytes → Option (MetricLabel × Bytes)
unfolding read_value
read_label s = elim (split_at b'=' s) [ none ↦ none | some (name, rest) ↦ read_value name rest ]

-- Behind the brace that closes the labels.
unfoldable pub read_end : MetricLabel → Bytes → Option (List MetricLabel × Bytes)
read_end l [] = none
read_end l (c ∷ s) = if c == b' ' then some (l ∷ [], s) else none

-- Behind a label; `more` reads what follows a comma.
unfoldable pub separated :
    (Bytes → Option (List MetricLabel × Bytes))
    → MetricLabel
    → Bytes
    → Option (List MetricLabel × Bytes)
unfolding read_end
separated more l [] = none
separated more l (c ∷ s) =
    if c == b'}'
    then read_end l s
    else if c == b','
    then elim (more s) [ none ↦ none | some (ls, v) ↦ some (l ∷ ls, v) ]
    else none

-- At most as many labels as the number says, and the value behind them.
unfoldable pub read_labels : ℕ → Bytes → Option (List MetricLabel × Bytes)
read_labels zero s = none
read_labels (suc n) s = elim (read_label s) [
  | none ↦ none
  | some (l, rest) ↦ separated (read_labels n) l rest
]

-- Behind the name.
unfoldable pub read_rest : Bytes → Bytes → Option Entry
read_rest name [] = none
read_rest name (c ∷ s) =
    if c == b' '
    then some (sample name [] s)
    else elim (read_labels 4 s) [ none ↦ none | some (ls, v) ↦ some (sample name ls v) ]

unfoldable pub read_entry : Bytes → Option Entry
unfolding read_rest
read_entry [] = none
read_entry (c ∷ s) =
    if c == b'#' then some (comment s) else read_rest (read_name (c ∷ s)).0 (read_name (c ∷ s)).1

-- As many lines as the number says, or fewer.
unfoldable pub read_page : ℕ → Bytes → Option (List Entry)
read_page zero [] = some []
read_page zero (c ∷ s) = none
read_page (suc n) [] = some []
read_page (suc n) (c ∷ s) = elim (split_at b'\n' (c ∷ s)) [
  | none ↦ none
  | some (line, rest) ↦ elim (read_entry line) [
    | none ↦ none
    | some e ↦ elim (read_page n rest) [ none ↦ none | some es ↦ some (e ∷ es) ]
  ]
]

abbrev pub IsNameByte : ℕ → Type 0
IsNameByte c = (c ≢ b' ') × (c ≢ b'{') × (c ≢ b'#') × (c ≢ b'\n')

-- No value of a label needs an escape.
pub record IsPlainLabel (l : MetricLabel) : Type 0 where
  pub name_plain : Lacks b'=' l.name
  pub name_line : Lacks b'\n' l.name
  pub value_plain : escape l.value ≡ l.value
  pub value_line : Lacks b'\n' l.value

abbrev pub IsPlainEntry : Entry → Type 0
IsPlainEntry (comment c) = Lacks b'\n' c
IsPlainEntry (sample name ls v) =
    (name ≢ []) × All IsNameByte name × All IsPlainLabel ls × (length ls < 4) × Lacks b'\n' v

-- The line of an entry but for its end.
abbrev pub line_text : Entry → Bytes
line_text (comment c) = b'#' ∷ c
line_text (sample name ls v) = name ++ (labels_text ls ++ b' ' ∷ v)

abbrev pub page_text : List Entry → Bytes
page_text [] = []
page_text (e ∷ es) = line_text e ++ b'\n' ∷ page_text es
