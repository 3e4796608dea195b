-- ===== src/Config/RoundTrip.antt =====
-- A configuration that is written as `key=value` lines is read back by common/config.cpp.
use ai_optimized_kernel_and.Prelude.{
  ℕ, ◌≡◌, ◌≢◌, refl, ap, ◌∙◌, true, false, some, List, [], ◌∷◌, ◌++◌, arith, append-nil, sym,
  if◌then◌else◌,
}
use ai_optimized_kernel_and.Config.{
  Data, lines, strip_comment, is_space, trim_start, trim_end, trim, split_eq, parse_line, assign,
  find, load_lines, load, get, has,
}
use ai_optimized_kernel_and.Config.Bytes.{is_nil, bytes_eq, bytes_eq_iff}

-- The character does not occur.
abbrev pub Free : ℕ → List ℕ → Type 0
Free c [] = Unit {0}
Free c (x ∷ xs) = (x ≢ c) × Free c xs

abbrev pub StartsSolid : List ℕ → Type 0
StartsSolid [] = ⊥
StartsSolid (c ∷ cs) = is_space c ≡ false

-- Text that can stand as a key, and as a value.
pub record IsKey (k : List ℕ) : Type 0 where
  pub solid : StartsSolid k
  pub ends : trim_end k ≡ k
  pub no_comment : Free b'#' k
  pub no_newline : Free b'\n' k
  pub no_eq : Free b'=' k

pub record IsValue (v : List ℕ) : Type 0 where
  pub starts : trim_start v ≡ v
  pub ends : trim_end v ≡ v
  pub no_comment : Free b'#' v
  pub no_newline : Free b'\n' v

unfoldable pub print : Data → List ℕ
print [] = []
print ((k, v) ∷ m) = (k ++ b'=' ∷ v) ++ b'\n' ∷ print m

unfoldable pub assign_all : Data → Data → Data
assign_all [] m = m
assign_all ((k, v) ∷ bs) m = assign_all bs (assign k v m)

abbrev pub AllClean : Data → Type 0
AllClean [] = Unit {0}
AllClean ((k, v) ∷ m) = IsKey k × IsValue v × AllClean m

pub Free-append : (c : ℕ) (xs ys : List ℕ) → Free c xs → Free c ys → Free c (xs ++ ys)
Free-append c [] ys h k = k
Free-append c (x ∷ xs) ys (h, hs) k = (h, Free-append c xs ys hs k)

pub lines-append : (l rest : List ℕ) → Free b'\n' l → lines (l ++ b'\n' ∷ rest) ≡ l ∷ lines rest
unfolding lines
lines-append [] rest h = refl
lines-append (c ∷ cs) rest (ne, h) = ground (arith, lines-append cs rest h)

strip_comment-Free : (l : List ℕ) → Free b'#' l → strip_comment l ≡ l
unfolding strip_comment
strip_comment-Free [] h = refl
strip_comment-Free (c ∷ cs) (ne, h) = ground (arith, strip_comment-Free cs h)

pub trim_start-solid : (k r : List ℕ) → StartsSolid k → trim_start (k ++ r) ≡ k ++ r
unfolding trim_start
trim_start-solid [] r h = absurd h
trim_start-solid (c ∷ cs) r h = ground (arith, h)

pub is_nil-append : (l : List ℕ) (c : ℕ) (r : List ℕ) → is_nil (l ++ c ∷ r) ≡ false
is_nil-append [] c r = refl
is_nil-append (x ∷ l) c r = refl

pub is_nil-solid : (k : List ℕ) → StartsSolid k → is_nil k ≡ false
is_nil-solid [] h = absurd h
is_nil-solid (c ∷ k) h = refl

trim_end-append :
    (l : List ℕ) (c : ℕ) (r : List ℕ)
    → is_space c ≡ false
    → trim_end r ≡ r
    → trim_end (l ++ c ∷ r) ≡ l ++ c ∷ r
unfolding trim_end
trim_end-append [] c r h k = ground (arith, h, k)
trim_end-append (x ∷ l) c r h k = ground (arith, trim_end-append l c r h k, is_nil-append l c r)

pub split_eq-Free : (k v : List ℕ) → Free b'=' k → split_eq (k ++ b'=' ∷ v) ≡ some (k, v)
unfolding split_eq
split_eq-Free [] v h = refl
split_eq-Free (c ∷ cs) v (ne, h) = ground (arith, split_eq-Free cs v h)

trim-both : (l : List ℕ) → trim_start l ≡ l → trim_end l ≡ l → trim l ≡ l
unfolding trim
trim-both l h k = rw (h, k)

pub is_space-eq : is_space b'=' ≡ false
unfolding is_space
is_space-eq = refl

parse_line-print : (k v : List ℕ) → IsKey k → IsValue v → parse_line (k ++ b'=' ∷ v) ≡ some (k, v)
unfolding parse_line
parse_line-print k v hk hv =
    let l = k ++ b'=' ∷ v in
    let solid : trim_start k ≡ k =
      ap trim_start (sym (append-nil k)) ∙ trim_start-solid k [] hk.solid ∙ append-nil k in
    ground (
      arith,
      strip_comment-Free l (Free-append b'#' k _ hk.no_comment ((omega arith), hv.no_comment)),
      trim-both l (trim_start-solid k (b'=' ∷ v) hk.solid)
          (trim_end-append k b'=' v is_space-eq hv.ends),
      is_nil-append k b'=' v,
      split_eq-Free k v hk.no_eq,
      trim-both k solid hk.ends,
      is_nil-solid k hk.solid,
      trim-both v hv.starts hv.ends,
    )

find-assign :
    (k j v : List ℕ) (m : Data)
    → find j (assign k v m) ≡ (if bytes_eq k j then some v else find j m)
unfolding assign find
find-assign k j v [] = refl
find-assign k j v ((i, w) ∷ m) =
    ground (arith, bytes_eq_iff k j, bytes_eq_iff i k, bytes_eq_iff i j, find-assign k j v m)

load_lines-print : (bs m : Data) → AllClean bs → load_lines (lines (print bs)) m ≡ assign_all bs m
unfolding load_lines assign_all print lines
load_lines-print [] m h = refl
load_lines-print ((k, v) ∷ bs) m (hk, hv, h) =
    rw
      (
        lines-append (k ++ b'=' ∷ v) (print bs)
            (Free-append b'\n' k _ hk.no_newline ((omega arith), hv.no_newline)),
        load_lines,
        parse_line-print k v hk hv,
      )
      (load_lines-print bs (assign k v m) h)

-- Reading what was written for a list of clean bindings makes the same assignments in the same order:
-- a key is clean that is not empty, neither starts nor ends in a space and has no `#`, `=` or newline;
-- a value may be empty and may have `=` in it.
pub load-print : (bs m : Data) → AllClean bs → load (some (print bs)) m ≡ some (assign_all bs m)
unfolding load
load-print bs m h = ap some (load_lines-print bs m h)

-- A key has the value that was assigned to it last, and an assignment to another key changes nothing:
-- neither what `get` returns nor what `has` says.
get-assign :
    (k j v def : List ℕ) (m : Data)
    → (get j def (assign k v m) ≡ (if bytes_eq k j then v else get j def m))
      × (has j (assign k v m) ≡ (if bytes_eq k j then true else has j m))
unfolding get has
get-assign k j v def m = ground (arith, find-assign k j v m)
