-- ===== src/Metrics/Read/Lines.antt =====
-- What the reader of the pages of src/metrics.cpp makes of lines as they are written.
use hamstercam.Base.{
  ℕ, zero, suc, ◌<◌, ◌≤◌, ◌≡◌, ◌≢◌, refl, sym, subst, ap, ◌∙◌, some, List, [], ◌∷◌, ◌++◌, Bytes,
  All, All-append, ◌⊎◌, inl, inr, length, append_assoc, arith,
}
use hamstercam.Text.{split_at}
use hamstercam.Text.Split.{Lacks, split_at-append}
use hamstercam.Json.Escape.{read_string, read_string-escape}
use hamstercam.Metrics.{MetricLabel, labels_text, more_labels}
use hamstercam.Metrics.Read.{
  Entry, comment, sample, read_name, read_value, read_label, separated, read_labels, read_rest,
  read_entry, read_page, IsNameByte, IsPlainLabel, IsPlainEntry, line_text, page_text,
}

abbrev label_line : MetricLabel → Bytes
label_line l = l.name ++ b'=' ∷ b'"' ∷ (l.value ++ b'"' ∷ [])

read_label-label_line :
    (l : MetricLabel) (rest : Bytes)
    → IsPlainLabel l
    → read_label (l.name ++ b'=' ∷ b'"' ∷ (l.value ++ b'"' ∷ rest)) ≡ some (l, rest)
unfolding read_label
read_label-label_line l rest p =
    rw
      (
        split_at-append b'=' l.name (b'"' ∷ (l.value ++ b'"' ∷ rest)) p.name_plain,
        read_label,
        read_value,
        ap (λ s. read_string (s ++ b'"' ∷ rest)) (sym p.value_plain)
            ∙ read_string-escape l.value rest,
      )
      refl

read_labels-text :
    (ls : List MetricLabel) (l : MetricLabel) (n : ℕ) (v : Bytes)
    → length ls < n
    → IsPlainLabel l
    → All IsPlainLabel ls
    → read_labels n
        (l.name ++ b'=' ∷ b'"' ∷ (l.value ++ b'"' ∷ (more_labels ls ++ b'}' ∷ b' ' ∷ v)))
      ≡ some (l ∷ ls, v)
unfolding read_labels separated more_labels
read_labels-text ls l zero v h p ps = absurd (omega arith)
read_labels-text [] l (suc n) v h p ps =
    rw (read_label-label_line l (b'}' ∷ b' ' ∷ v) p, read_labels) refl
read_labels-text (m ∷ ls) l (suc n) v h p (q, ps) =
    let behind = m.name ++ b'=' ∷ b'"' ∷ (m.value ++ b'"' ∷ (more_labels ls ++ b'}' ∷ b' ' ∷ v)) in
    simp append_assoc (
      rw
        (
          read_label-label_line l (b',' ∷ behind) p,
          read_labels,
          read_labels-text ls m n v (omega arith) q ps,
        )
        refl)

read_name-space :
    (name s : Bytes) (c : ℕ)
    → All IsNameByte name
    → (c ≡ b' ') ⊎ (c ≡ b'{')
    → read_name (name ++ c ∷ s) ≡ (name, c ∷ s)
unfolding read_name
read_name-space [] s c h e = ground (arith, e)
read_name-space (x ∷ name) s c h e = ground (arith, h.0, read_name-space name s c h.1 e)

read_entry-named :
    (x c : ℕ) (name s : Bytes)
    → All IsNameByte (x ∷ name)
    → (c ≡ b' ') ⊎ (c ≡ b'{')
    → read_entry (x ∷ (name ++ c ∷ s)) ≡ read_rest (x ∷ name) (c ∷ s)
unfolding read_entry
read_entry-named x c name s h e = ground (arith, h.0, read_name-space (x ∷ name) s c h e)

labels_text-open :
    (l : MetricLabel) (ls : List MetricLabel) (v : Bytes)
    → labels_text (l ∷ ls) ++ b' ' ∷ v
      ≡ b'{' ∷ (l.name ++ b'=' ∷ b'"' ∷ (l.value ++ b'"' ∷ (more_labels ls ++ b'}' ∷ b' ' ∷ v)))
unfolding labels_text
labels_text-open l ls v = simp append_assoc

read_entry-line_text : (e : Entry) → IsPlainEntry e → read_entry (line_text e) ≡ some e
unfolding labels_text read_entry read_rest
read_entry-line_text (comment c) h = refl
read_entry-line_text (sample [] ls v) h = absurd (h.0 refl)
read_entry-line_text (sample (x ∷ name) [] v) h = read_entry-named x b' ' name v h.1 (inl refl)
read_entry-line_text (sample (x ∷ name) (l ∷ ls) v) h =
    let behind = l.name ++ b'=' ∷ b'"' ∷ (l.value ++ b'"' ∷ (more_labels ls ++ b'}' ∷ b' ' ∷ v)) in
    ap (λ s. read_entry (x ∷ (name ++ s))) (labels_text-open l ls v)
    ∙ read_entry-named x b'{' name behind h.1 (inr refl)
    ∙ rw (read_labels-text ls l 4 v (omega (arith, h.3)) h.2.0 h.2.1, read_rest) refl

pub Lacks-append : (s t : Bytes) → Lacks b'\n' s → Lacks b'\n' t → Lacks b'\n' (s ++ t)
Lacks-append s t h g = All-append (λ x. x ≢ b'\n') s t h g

label_line-Lacks : (l : MetricLabel) → IsPlainLabel l → Lacks b'\n' (label_line l)
label_line-Lacks l p =
    Lacks-append l.name _ p.name_line
      (omega arith, (omega arith, Lacks-append l.value (b'"' ∷ []) p.value_line (omega arith, tt)))

more_labels-cons :
    (l : MetricLabel) (ls : List MetricLabel)
    → more_labels (l ∷ ls) ≡ b',' ∷ (label_line l ++ more_labels ls)
unfolding more_labels
more_labels-cons l ls = simp append_assoc

labels_text-cons :
    (l : MetricLabel) (ls : List MetricLabel)
    → labels_text (l ∷ ls) ≡ b'{' ∷ (label_line l ++ (more_labels ls ++ b'}' ∷ []))
unfolding labels_text
labels_text-cons l ls = simp append_assoc

more_labels-Lacks : (ls : List MetricLabel) → All IsPlainLabel ls → Lacks b'\n' (more_labels ls)
more_labels-Lacks [] h = unfold more_labels in tt
more_labels-Lacks (l ∷ ls) (p, ps) = subst (Lacks b'\n') (sym (more_labels-cons l ls)) (
  omega arith,
  Lacks-append (label_line l) (more_labels ls) (label_line-Lacks l p) (more_labels-Lacks ls ps),
)

labels_text-Lacks : (ls : List MetricLabel) → All IsPlainLabel ls → Lacks b'\n' (labels_text ls)
labels_text-Lacks [] h = unfold labels_text in tt
labels_text-Lacks (l ∷ ls) (p, ps) = subst (Lacks b'\n') (sym (labels_text-cons l ls)) (
  omega arith,
  Lacks-append (label_line l) (more_labels ls ++ b'}' ∷ []) (label_line-Lacks l p)
      (Lacks-append (more_labels ls) (b'}' ∷ []) (more_labels-Lacks ls ps) (omega arith, tt)),
)

pub name-Lacks : (name : Bytes) → All IsNameByte name → Lacks b'\n' name
name-Lacks [] h = tt
name-Lacks (c ∷ name) h = (h.0.3, name-Lacks name h.1)

line_text-Lacks : (e : Entry) → IsPlainEntry e → Lacks b'\n' (line_text e)
line_text-Lacks (comment c) h = (omega arith, h)
line_text-Lacks (sample name ls v) h =
    Lacks-append name _ (name-Lacks name h.1)
      (Lacks-append (labels_text ls) (b' ' ∷ v) (labels_text-Lacks ls h.2) (omega arith, h.4))

line_text-cons : (e : Entry) → IsPlainEntry e → (c : ℕ) × (s : Bytes) × (line_text e ≡ c ∷ s)
line_text-cons (comment c) h = (b'#', c, refl)
line_text-cons (sample [] ls v) h = absurd (h.0 refl)
line_text-cons (sample (x ∷ name) ls v) h = (x, name ++ (labels_text ls ++ b' ' ∷ v), refl)

-- The entries of a page whose names and values fit on their lines are read back.
pub read_page-page_text :
    (es : List Entry) (n : ℕ)
    → length es ≤ n
    → All IsPlainEntry es
    → read_page n (page_text es) ≡ some es
unfolding read_page
read_page-page_text [] zero l h = refl
read_page-page_text [] (suc n) l h = refl
read_page-page_text (e ∷ es) zero l h = absurd (omega arith)
read_page-page_text (e ∷ es) (suc n) l (h, hs) =
    let (c, s, e') = line_text-cons e h in
    rw
      (
        e',
        ap (λ t. split_at b'\n' (t ++ b'\n' ∷ page_text es)) (sym e')
            ∙ split_at-append b'\n' (line_text e) (page_text es) (line_text-Lacks e h),
        read_page,
        read_entry-line_text e h,
        read_page-page_text es n (omega arith) hs,
      )
      refl
