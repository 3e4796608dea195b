-- ===== src/Config/Layout.antt =====
-- Spaces, comments and empty lines in a configuration file, as common/config.cpp reads them.
use ai_optimized_kernel_and.Prelude.{
  ℕ, ◌≡◌, ◌≢◌, refl, ap, ◌∙◌, sym, true, false, Option, none, some, List, [], ◌∷◌, ◌++◌, arith,
  append-nil, append_assoc,
}
use ai_optimized_kernel_and.Config.{
  Data, lines, strip_comment, is_space, trim_start, trim_end, trim, parse_line, assign, load_lines,
  load,
}
use ai_optimized_kernel_and.Config.RoundTrip.{
  Free, IsKey, assign_all, Free-append, lines-append, trim_start-solid, split_eq-Free,
  is_nil-append, is_nil-solid, is_space-eq,
}

abbrev pub AllSpace : List ℕ → Type 0
AllSpace [] = Unit {0}
AllSpace (c ∷ cs) = (is_space c ≡ true) × AllSpace cs

-- Nothing, or a `#` with what follows it.
abbrev pub comment_text : Option (List ℕ) → List ℕ
comment_text none = []
comment_text (some c) = b'#' ∷ c

abbrev pub Ends : Option (List ℕ) → Type 0
Ends none = Unit {0}
Ends (some c) = Free b'\n' c

-- A line of the file: spaces with a comment, or a key and a value with spaces and a comment.
pub data Line : Type 0 where
  remark : List ℕ → Option (List ℕ) → Line
  setting : List ℕ → List ℕ → List ℕ → List ℕ → Option (List ℕ) → Line

abbrev pub IsLine : Line → Type 0
IsLine (remark blank comment) = AllSpace blank × Free b'\n' blank × Ends comment
IsLine (setting before k after v comment) =
    (AllSpace before × Free b'\n' before)
    × IsKey k
    × (AllSpace after × Free b'\n' after)
    × (Free b'#' v × Free b'\n' v)
    × Ends comment

abbrev pub AllLines : List Line → Type 0
AllLines [] = Unit {0}
AllLines (l ∷ ls) = IsLine l × AllLines ls

abbrev pub line_text : Line → List ℕ
line_text (remark blank comment) = blank ++ comment_text comment
line_text (setting before k after v comment) =
    (before ++ (k ++ (after ++ b'=' ∷ v))) ++ comment_text comment

abbrev pub file_text : List Line → List ℕ
file_text [] = []
file_text (l ∷ ls) = line_text l ++ b'\n' ∷ file_text ls

-- The bindings of the lines: the values without the spaces around them.
abbrev pub bindings : List Line → Data
bindings [] = []
bindings (remark blank comment ∷ ls) = bindings ls
bindings (setting before k after v comment ∷ ls) = (k, trim v) ∷ bindings ls

AllSpace-Free : (c : ℕ) (b : List ℕ) → is_space c ≡ false → AllSpace b → Free c b
AllSpace-Free c [] h k = tt
AllSpace-Free c (x ∷ xs) h (e, k) =
    let ne : x ≢ c = λ q. cc (h, e, q) in (ne, AllSpace-Free c xs h k)

is_space-hash : is_space b'#' ≡ false
unfolding is_space
is_space-hash = refl

strip_comment-comment :
    (l : List ℕ) (o : Option (List ℕ)) → Free b'#' l → strip_comment (l ++ comment_text o) ≡ l
unfolding strip_comment
strip_comment-comment [] none h = refl
strip_comment-comment [] (some c) h = ground arith
strip_comment-comment (c ∷ cs) o (ne, h) = ground (arith, strip_comment-comment cs o h)

trim_start-blank : (b r : List ℕ) → AllSpace b → trim_start (b ++ r) ≡ trim_start r
unfolding trim_start
trim_start-blank [] r h = refl
trim_start-blank (c ∷ cs) r (e, h) = ground (arith, e, trim_start-blank cs r h)

trim_end-space : (b : List ℕ) → AllSpace b → trim_end b ≡ []
unfolding trim_end
trim_end-space [] h = refl
trim_end-space (c ∷ cs) (e, h) = ground (arith, e, trim_end-space cs h)

trim_end-blank : (l b : List ℕ) → AllSpace b → trim_end (l ++ b) ≡ trim_end l
unfolding trim_end
trim_end-blank [] b h = trim_end-space b h
trim_end-blank (c ∷ cs) b h = rw (trim_end-blank cs b h) refl

trim_end-solid :
    (l : List ℕ) (c : ℕ) (r : List ℕ)
    → is_space c ≡ false
    → trim_end (l ++ c ∷ r) ≡ l ++ c ∷ trim_end r
unfolding trim_end
trim_end-solid [] c r h = ground (arith, h)
trim_end-solid (x ∷ l) c r h =
    ground (arith, trim_end-solid l c r h, is_nil-append l c (trim_end r))

trim_end-trim_end : (l : List ℕ) → trim_end (trim_end l) ≡ trim_end l
unfolding trim_end
trim_end-trim_end [] = refl
trim_end-trim_end (c ∷ cs) = ground (arith, trim_end-trim_end cs)

-- The two ends are trimmed in either order.
trim_start-trim_end : (l : List ℕ) → trim_start (trim_end l) ≡ trim_end (trim_start l)
unfolding trim_start trim_end
trim_start-trim_end [] = refl
trim_start-trim_end (c ∷ cs) = ground (arith, trim_start-trim_end cs)

trim-trim_end : (l : List ℕ) → trim (trim_end l) ≡ trim l
unfolding trim
trim-trim_end l = rw (trim_start-trim_end l) (trim_end-trim_end (trim_start l))

trim-key : (k b : List ℕ) → IsKey k → AllSpace b → trim (k ++ b) ≡ k
unfolding trim
trim-key k b h hb = rw (trim_start-solid k b h.solid) (trim_end-blank k b hb ∙ h.ends)

parse_line-remark :
    (b : List ℕ) (o : Option (List ℕ)) → AllSpace b → parse_line (b ++ comment_text o) ≡ none
unfolding parse_line trim trim_start trim_end
parse_line-remark b o h =
    let strip = strip_comment-comment b o (AllSpace-Free b'#' b is_space-hash h) in
    let start : trim_start b ≡ [] = ap trim_start (sym (append-nil b)) ∙ trim_start-blank b [] h in
    rw (strip, start) refl

parse_line-setting :
    (before k after v : List ℕ) (o : Option (List ℕ))
    → AllSpace before
    → IsKey k
    → AllSpace after
    → Free b'#' v
    → parse_line ((before ++ (k ++ (after ++ b'=' ∷ v))) ++ comment_text o) ≡ some (k, trim v)
unfolding parse_line
parse_line-setting before k after v o hb hk ha hv =
    let line = before ++ (k ++ (after ++ b'=' ∷ v)) in
    let free : Free b'#' line =
      Free-append b'#' before _ (AllSpace-Free b'#' before is_space-hash hb) (
        Free-append b'#' k _ hk.no_comment (
          Free-append b'#' after _ (AllSpace-Free b'#' after is_space-hash ha)
            (omega arith, hv))) in
    let ends : trim_end (k ++ (after ++ b'=' ∷ v)) ≡ (k ++ after) ++ b'=' ∷ trim_end v =
      ap trim_end (sym (append_assoc k after (b'=' ∷ v)))
      ∙ trim_end-solid (k ++ after) b'=' v is_space-eq in
    let body : trim line ≡ (k ++ after) ++ b'=' ∷ trim_end v =
      unfold trim in
      rw
        (
          trim_start-blank before (k ++ (after ++ b'=' ∷ v)) hb,
          trim_start-solid k (after ++ b'=' ∷ v) hk.solid,
        )
        ends in
    ground (
      arith,
      strip_comment-comment line o free,
      body,
      is_nil-append (k ++ after) b'=' (trim_end v),
      split_eq-Free (k ++ after) (trim_end v)
          (Free-append b'=' k after hk.no_eq (AllSpace-Free b'=' after is_space-eq ha)),
      trim-key k after hk ha,
      is_nil-solid k hk.solid,
      trim-trim_end v,
    )

comment-Free : (o : Option (List ℕ)) → Ends o → Free b'\n' (comment_text o)
comment-Free none h = tt
comment-Free (some c) h = (omega arith, h)

line_text-Free : (l : Line) → IsLine l → Free b'\n' (line_text l)
line_text-Free (remark b o) (hb, nb, ho) = Free-append b'\n' b _ nb (comment-Free o ho)
line_text-Free (setting before k after v o) ((hb, nb), hk, (ha, na), (hv, nv), ho) =
    Free-append b'\n' (before ++ (k ++ (after ++ b'=' ∷ v))) _
      (Free-append b'\n' before _ nb
        (Free-append b'\n' k _ hk.no_newline (Free-append b'\n' after _ na (omega arith, nv))))
      (comment-Free o ho)

load_lines-file_text :
    (ls : List Line) (m : Data)
    → AllLines ls
    → load_lines (lines (file_text ls)) m ≡ assign_all (bindings ls) m
unfolding load_lines assign_all lines
load_lines-file_text [] m h = refl
load_lines-file_text (remark b o ∷ ls) m (h, hs) =
    rw
      (
        lines-append (b ++ comment_text o) (file_text ls) (line_text-Free (remark b o) h),
        load_lines,
        parse_line-remark b o h.0,
      )
      (load_lines-file_text ls m hs)
load_lines-file_text (setting before k after v o ∷ ls) m (h, hs) =
    rw
      (
        lines-append _ (file_text ls) (line_text-Free (setting before k after v o) h),
        load_lines,
        parse_line-setting before k after v o h.0.0 h.1 h.2.0 h.3.0,
      )
      (load_lines-file_text ls (assign k (trim v) m) hs)

-- What a configuration file means does not depend on its layout: of lines with spaces or a comment, and
-- of lines `key = value` with any spaces before the key, around the `=` and behind the value, and with
-- or without a comment, the file makes the assignments of the keys to the trimmed values, in the order
-- of the lines, and nothing else.
pub load-file_text :
    (ls : List Line) (m : Data)
    → AllLines ls
    → load (some (file_text ls)) m ≡ some (assign_all (bindings ls) m)
unfolding load
load-file_text ls m h = ap some (load_lines-file_text ls m h)
