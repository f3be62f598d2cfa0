-- ===== src/Http/Strings/Search.antt =====
-- What pkg/http uses of Go's strings and bytes packages for separators of several bytes:
-- HasPrefix, TrimPrefix, Split and SplitN.
use distributed_systems_go.Base.{
  ℕ, ◌≡◌, ◌≢◌, refl, ap, ◌∙◌, true, false, List, [], ◌∷◌, ◌++◌, Option, none, some, ◌==◌, ◌&&◌,
  arith, Text, append-nil, append_assoc,
}
use distributed_systems_go.Http.Strings.{into_first, cons_first}
use distributed_systems_go.Http.Strings.Split.{Without, ==_ne}

-- what follows a prefix, if the text has it
unfoldable pub strip_prefix : Text → Text → Option Text
strip_prefix [] t = some t
strip_prefix (p ∷ ps) [] = none
strip_prefix (p ∷ ps) (c ∷ t) = elim (p == c) [ true ↦ strip_prefix ps t | false ↦ none ]

abbrev pub or_next : ℕ → Option Text → Option (Text × Text) → Option (Text × Text)
or_next c (some after) rest = some ([], after)
or_next c none rest = cons_first c rest

-- `SplitN(t, sep, 2)` for a separator that is not empty: the texts before and after its first place
unfoldable pub cut_text : Text → Text → Option (Text × Text)
cut_text sep [] = none
cut_text sep (c ∷ t) = let rest = cut_text sep t in or_next c (strip_prefix sep (c ∷ t)) rest

-- `Split(t, "\r\n")`
unfoldable pub split_lines : Text → List Text
split_lines [] = [] ∷ []
split_lines (x ∷ []) = (x ∷ []) ∷ []
split_lines (x ∷ y ∷ t) = elim (x == b'\r' && y == b'\n') [
  | true ↦ [] ∷ split_lines t
  | false ↦ into_first x (split_lines (y ∷ t))
]

-- the end of a line, and the end of the head of a message
abbrev pub newline : Text
newline = b'\r' ∷ b'\n' ∷ []

abbrev pub blank_line : Text
blank_line = b'\r' ∷ b'\n' ∷ b'\r' ∷ b'\n' ∷ []

-- lines with line ends between them
abbrev pub join_lines : Text → List Text → Text
join_lines l [] = l
join_lines l (m ∷ ms) = l ++ (b'\r' ∷ b'\n' ∷ join_lines m ms)

-- The line is not empty and holds no carriage return.
abbrev pub IsLine : Text → Type 0
IsLine [] = ⊥
IsLine (c ∷ t) = Without b'\r' (c ∷ t)

abbrev pub AreLines : List Text → Type 0
AreLines [] = Unit
AreLines (l ∷ ls) = IsLine l × AreLines ls

split_lines-part :
    (l rest : Text)
    → Without b'\r' l
    → split_lines (l ++ b'\r' ∷ b'\n' ∷ rest) ≡ l ∷ split_lines rest
unfolding split_lines
split_lines-part [] rest h = refl
split_lines-part (c ∷ []) rest h = rw (==_ne c b'\r' h.0, split_lines)
split_lines-part (c ∷ d ∷ l) rest h =
    rw (==_ne c b'\r' h.0, split_lines-part (d ∷ l) rest h.1, split_lines)

split_lines-last : (l : Text) → Without b'\r' l → split_lines l ≡ l ∷ []
unfolding split_lines
split_lines-last [] h = refl
split_lines-last (c ∷ []) h = refl
split_lines-last (c ∷ d ∷ l) h = rw (==_ne c b'\r' h.0, split_lines-last (d ∷ l) h.1, split_lines)

IsLine-Without : (l : Text) → IsLine l → Without b'\r' l
IsLine-Without [] h = absurd h
IsLine-Without (c ∷ l) h = h

-- Joined lines are split into the same lines.
pub split_lines-join :
    (l : Text) (ms : List Text) → IsLine l → AreLines ms → split_lines (join_lines l ms) ≡ l ∷ ms
split_lines-join l [] h hs = split_lines-last l (IsLine-Without l h)
split_lines-join l (m ∷ ms) h hs =
    split_lines-part l (join_lines m ms) (IsLine-Without l h)
    ∙ ap (λ ts. l ∷ ts) (split_lines-join m ms hs.0 hs.1)

abbrev pub onto : Text → Option (Text × Text) → Option (Text × Text)
onto [] r = r
onto (c ∷ l) r = cons_first c (onto l r)

strip_prefix-ne : (p c : ℕ) (ps t : Text) → c ≢ p → strip_prefix (p ∷ ps) (c ∷ t) ≡ none
unfolding strip_prefix
strip_prefix-ne p c ps t h = let e : (p == c) ≡ false = ground arith in rw (e, strip_prefix)

cut_text-skip :
    (c : ℕ) (t : Text)
    → c ≢ b'\r'
    → cut_text blank_line (c ∷ t) ≡ cons_first c (cut_text blank_line t)
unfolding cut_text
cut_text-skip c t h =
    ap (λ o. or_next c o (cut_text blank_line t))
      (strip_prefix-ne b'\r' c (b'\n' ∷ b'\r' ∷ b'\n' ∷ []) t h)

cut_text-line :
    (l rest : Text)
    → Without b'\r' l
    → cut_text blank_line (l ++ rest) ≡ onto l (cut_text blank_line rest)
cut_text-line [] rest h = refl
cut_text-line (c ∷ l) rest h =
    cut_text-skip c (l ++ rest) h.0 ∙ ap (cons_first c) (cut_text-line l rest h.1)

strip_prefix-newline :
    (c : ℕ) (t : Text) → c ≢ b'\r' → strip_prefix blank_line (b'\r' ∷ b'\n' ∷ c ∷ t) ≡ none
unfolding strip_prefix
strip_prefix-newline c t h = strip_prefix-ne b'\r' c (b'\n' ∷ []) t h

cut_text-newline :
    (c : ℕ) (t : Text)
    → c ≢ b'\r'
    → cut_text blank_line (b'\r' ∷ b'\n' ∷ c ∷ t)
      ≡ cons_first b'\r' (cons_first b'\n' (cut_text blank_line (c ∷ t)))
unfolding cut_text
cut_text-newline c t h =
    ap (λ o. or_next b'\r' o (cut_text blank_line (b'\n' ∷ c ∷ t))) (strip_prefix-newline c t h)
    ∙ ap (cons_first b'\r') (cut_text-skip b'\n' (c ∷ t) (λ e. omega arith))

cut_text-found : (body : Text) → cut_text blank_line (blank_line ++ body) ≡ some ([], body)
unfolding cut_text strip_prefix
cut_text-found body = refl

onto-some : (l a b : Text) → onto l (some (a, b)) ≡ some (l ++ a, b)
onto-some [] a b = refl
onto-some (c ∷ l) a b = ap (cons_first c) (onto-some l a b)

cut_text-break :
    (l : Text) (ms : List Text) (body : Text)
    → IsLine l
    → cut_text blank_line (b'\r' ∷ b'\n' ∷ (join_lines l ms ++ (blank_line ++ body)))
      ≡ cons_first b'\r'
          (cons_first b'\n' (cut_text blank_line (join_lines l ms ++ (blank_line ++ body))))
cut_text-break [] ms body h = absurd h
cut_text-break (c ∷ l) [] body h = cut_text-newline c (l ++ (blank_line ++ body)) h.0
cut_text-break (c ∷ l) (m ∷ ms) body h =
    cut_text-newline c ((l ++ (b'\r' ∷ b'\n' ∷ join_lines m ms)) ++ (blank_line ++ body)) h.0

-- Of joined lines and a body, the first blank line is the one between them.
pub cut_text-join :
    (l : Text) (ms : List Text) (body : Text)
    → IsLine l
    → AreLines ms
    → cut_text blank_line (join_lines l ms ++ (blank_line ++ body)) ≡ some (join_lines l ms, body)
cut_text-join l [] body h hs =
    cut_text-line l (blank_line ++ body) (IsLine-Without l h)
    ∙ (ap (onto l) (cut_text-found body)
        ∙ (onto-some l [] body ∙ ap (λ t. some (t, body)) (append-nil l)))
cut_text-join l ([] ∷ ms) body h hs = absurd hs.0
cut_text-join l ((c ∷ m) ∷ ms) body h hs =
    let tail : Text = join_lines (c ∷ m) ms in
    let ih : cut_text blank_line (tail ++ (blank_line ++ body)) ≡ some (tail, body) =
      cut_text-join (c ∷ m) ms body hs.0 hs.1 in
    ap (cut_text blank_line) (append_assoc l (b'\r' ∷ b'\n' ∷ tail) (blank_line ++ body))
    ∙ (cut_text-line l _ (IsLine-Without l h)
        ∙ (ap (onto l) (
              cut_text-break (c ∷ m) ms body hs.0
              ∙ ap (λ o. cons_first b'\r' (cons_first b'\n' o)) ih)
            ∙ onto-some l (b'\r' ∷ b'\n' ∷ tail) body))
