-- ===== src/Metrics/Exposition/Scraped.antt =====
-- What a scraper reads from the text of the metrics.
use lethe.Base.{
  ℕ, ◌<◌, ◌≤◌, ◌-◌, ◌^◌, ◌≡◌, ◌≢◌, refl, ap, ◌∙◌, Bool, true, false, Option, none, some, List, [],
  ◌∷◌, ◌++◌, All, All-append, All-mono, arith, Bool-cases, inl, inr, ltb, ◌==◌, if◌then◌else◌,
}
use lethe.Base.Text.{
  codes, pieces, Lacks, lacks, lacks-Lacks, pieces-append, cut_last, cut_last-append,
}
use lethe.Types.{Bytes}
use lethe.Router.{to_string}
use lethe.Router.Decimal.{IsDigit, to_string-All}
use lethe.Metrics.{Histogram, rendered}
use lethe.Metrics.Exposition.{
  Line, comment, sample, newline, space, line_text, print_lines, headed, show_signed, labelled,
  bucket_lines, render_histogram,
}

-- A line of the text format: empty, a comment, or a series and its value.
abbrev pub read_line : Bytes → Option (Bytes × Bytes)
read_line [] = none
read_line (c ∷ cs) = if c == b'#' then none else cut_last space (c ∷ cs)

abbrev pub put_sample : Option (Bytes × Bytes) → List (Bytes × Bytes) → List (Bytes × Bytes)
put_sample none rest = rest
put_sample (some s) rest = s ∷ rest

unfoldable pub read_pieces : List Bytes → List (Bytes × Bytes)
read_pieces [] = []
read_pieces (p ∷ ps) = put_sample (read_line p) (read_pieces ps)

-- The samples of a text.
unfoldable pub scrape : Bytes → List (Bytes × Bytes)
unfolding read_pieces pieces
scrape text = read_pieces (pieces newline text)

-- The samples that the lines stand for.
abbrev pub samples : List Line → List (Bytes × Bytes)
samples [] = []
samples (comment text ∷ ls) = samples ls
samples (sample series value ∷ ls) = (series, value) ∷ samples ls

abbrev pub read_as : Line → Option (Bytes × Bytes)
read_as (comment text) = none
read_as (sample series value) = some (series, value)

-- A line that reads back.
abbrev pub IsLine : Line → Type 0
IsLine l = Lacks newline (line_text l) × (read_line (line_text l) ≡ read_as l)

-- Lines that read back.
pub data AreLines : List Line → Type 0 where
  no_lines : AreLines []
  next : {l : Line} {ls : List Line} → IsLine l → AreLines ls → AreLines (l ∷ ls)

put-read_as : (l : Line) (ls : List Line) → put_sample (read_as l) (samples ls) ≡ samples (l ∷ ls)
put-read_as (comment text) ls = refl
put-read_as (sample series value) ls = refl

pub scrape-print_lines : (ls : List Line) → AreLines ls → scrape (print_lines ls) ≡ samples ls
unfolding scrape print_lines read_pieces pieces
scrape-print_lines [] no_lines = refl
scrape-print_lines (l ∷ ls) (next h hs) =
    ap read_pieces (pieces-append newline (line_text l) (print_lines ls) h.0)
    ∙ ((λ i. put_sample (h.1 i) (scrape-print_lines ls hs i)) ∙ put-read_as l ls)

Lacks-append : (c : ℕ) (xs ys : Bytes) → Lacks c xs → Lacks c ys → Lacks c (xs ++ ys)
Lacks-append c xs ys h k = All-append (λ x. x ≢ c) xs ys h k

-- A value without white space.
abbrev pub IsValue : Bytes → Type 0
IsValue v = Lacks newline v × Lacks space v

-- A sample whose series begins with a letter of the names.
sample-IsLine :
    (first : ℕ) (series value : Bytes)
    → (first == b'#') ≡ false
    → Lacks newline (first ∷ series)
    → IsValue value
    → IsLine (sample (first ∷ series) value)
sample-IsLine first series value f h k = (
  Lacks-append newline (first ∷ series) (space ∷ value) h ((λ e. absurd (omega (arith, e))), k.0),
  rw f (cut_last-append space (first ∷ series) value k.1),
)

low-Lacks : (c : ℕ) → c < 45 → (v : Bytes) → All (λ x. 45 ≤ x) v → Lacks c v
low-Lacks c h [] d = tt
low-Lacks c h (x ∷ v) d = ((λ e. omega (arith, d.0, e)), low-Lacks c h v d.1)

high-IsValue : (v : Bytes) → All (λ x. 45 ≤ x) v → IsValue v
high-IsValue v d = (low-Lacks newline (omega arith) v d, low-Lacks space (omega arith) v d)

digits-high : (v : Bytes) → All IsDigit v → All (λ x. 45 ≤ x) v
digits-high v h = All-mono IsDigit (λ x. 45 ≤ x) v (λ x d. omega (arith, d.0)) h

pub to_string-IsValue : (n : ℕ) → IsValue (to_string n)
to_string-IsValue n = high-IsValue (to_string n) (digits-high (to_string n) (to_string-All n))

pub show_signed-IsValue : (v : ℕ) → IsValue (show_signed v)
unfolding show_signed
show_signed-IsValue v = elim (Bool-cases (ltb v (2 ^ 63))) [
  | inl small ↦ rw small (to_string-IsValue v)
  | inr large ↦ rw large (
      high-IsValue (b'-' ∷ to_string (2 ^ 64 - v))
        (omega arith, digits-high (to_string (2 ^ 64 - v)) (to_string-All (2 ^ 64 - v))))
]

-- A name of a series.
abbrev pub is_name : Bytes → Bool
is_name [] = false
is_name (c ∷ cs) = if c == b'#' then false else lacks newline (c ∷ cs)

named-IsLine :
    (name rest value : Bytes)
    → is_name name ≡ true
    → Lacks newline rest
    → IsValue value
    → IsLine (sample (name ++ rest) value)
named-IsLine [] rest value n h k = absurd (ground (arith, n))
named-IsLine (c ∷ cs) rest value n h k = elim (Bool-cases (c == b'#')) [
  | inl hash ↦ absurd (ground (arith, n, hash))
  | inr letter ↦
      let whole : lacks newline (c ∷ cs) ≡ true = ground (arith, n, letter) in
      sample-IsLine c (cs ++ rest) value letter
        (Lacks-append newline (c ∷ cs) rest (lacks-Lacks newline (c ∷ cs) whole) h) k
]

pub headed-All :
    (name help kind : Bytes) (lines : List Line)
    → lacks newline (name ++ (codes " " ++ help)) ≡ true
    → lacks newline (name ++ (codes " " ++ kind)) ≡ true
    → AreLines lines
    → AreLines (headed name help kind lines)
headed-All name help kind lines h k rest =
    next
      (
        Lacks-append newline (codes "# HELP ") (name ++ (codes " " ++ help))
            (lacks-Lacks newline (codes "# HELP ") refl)
            (lacks-Lacks newline (name ++ (codes " " ++ help)) h),
        refl,
      )
      (next
        (
          Lacks-append newline (codes "# TYPE ") (name ++ (codes " " ++ kind))
              (lacks-Lacks newline (codes "# TYPE ") refl)
              (lacks-Lacks newline (name ++ (codes " " ++ kind)) k),
          refl,
        )
        rest)

module _ (node_id : Bytes) (one_line : Lacks newline node_id) where
  labelled-Lacks : (rest : Bytes) → Lacks newline rest → Lacks newline (labelled node_id rest)
  labelled-Lacks rest h =
      Lacks-append newline (codes "{node=\"") (node_id ++ (codes "\"" ++ rest))
        (lacks-Lacks newline (codes "{node=\"") refl)
        (Lacks-append newline node_id (codes "\"" ++ rest) one_line
          (Lacks-append newline (codes "\"") rest (lacks-Lacks newline (codes "\"") refl) h))

  pub series-IsLine :
      (name rest value : Bytes)
      → is_name name ≡ true
      → lacks newline rest ≡ true
      → IsValue value
      → IsLine (sample (name ++ labelled node_id rest) value)
  series-IsLine name rest value n h k =
      named-IsLine name (labelled node_id rest) value n
        (labelled-Lacks rest (lacks-Lacks newline rest h)) k

  bucket_lines-All :
      (family op : Bytes) (bounds : List Bytes) (counts : List ℕ) (lines : List Line)
      → is_name family ≡ true
      → lacks newline op ≡ true
      → All (Lacks newline) bounds
      → AreLines lines
      → AreLines (bucket_lines family node_id op bounds counts lines)
  unfolding bucket_lines
  bucket_lines-All family op [] counts lines f o h k = k
  bucket_lines-All family op (b ∷ bounds) [] lines f o h k = k
  bucket_lines-All family op (b ∷ bounds) (n ∷ counts) lines f o h k =
      next
        (named-IsLine family
          (codes "_bucket" ++ labelled node_id (op ++ (codes ",le=\"" ++ (b ++ codes "\"}"))))
          (to_string n) f
          (Lacks-append newline (codes "_bucket")
            (labelled node_id (op ++ (codes ",le=\"" ++ (b ++ codes "\"}"))))
            (lacks-Lacks newline (codes "_bucket") refl)
            (labelled-Lacks (op ++ (codes ",le=\"" ++ (b ++ codes "\"}"))) (
              Lacks-append newline op (codes ",le=\"" ++ (b ++ codes "\"}"))
                (lacks-Lacks newline op o)
                (Lacks-append newline (codes ",le=\"") (b ++ codes "\"}")
                  (lacks-Lacks newline (codes ",le=\"") refl)
                  (Lacks-append newline b (codes "\"}") h.0
                    (lacks-Lacks newline (codes "\"}") refl))))))
          (to_string-IsValue n))
        (bucket_lines-All family op bounds counts lines f o h.1 k)

  ending-IsLine :
      (family end op value : Bytes)
      → is_name family ≡ true
      → lacks newline end ≡ true
      → lacks newline op ≡ true
      → IsValue value
      → IsLine (sample (family ++ (end ++ labelled node_id (op ++ codes "}"))) value)
  ending-IsLine family end op value f e o k =
      named-IsLine family (end ++ labelled node_id (op ++ codes "}")) value f
        (Lacks-append newline end (labelled node_id (op ++ codes "}")) (lacks-Lacks newline end e) (
          labelled-Lacks (op ++ codes "}") (
            Lacks-append newline op (codes "}") (lacks-Lacks newline op o)
              (lacks-Lacks newline (codes "}") refl))))
        k

  module _ (show_sum : ℕ → Bytes) (sums : (n : ℕ) → IsValue (show_sum n)) where
    pub histogram-All :
        (bounds : List Bytes) (family op : Bytes) (h : Histogram) (lines : List Line)
        → All (Lacks newline) bounds
        → is_name family ≡ true
        → lacks newline op ≡ true
        → AreLines lines
        → AreLines (render_histogram show_sum bounds family node_id op h lines)
    histogram-All bounds family op h lines b f o k =
        bucket_lines-All family op (bounds ++ codes "+Inf" ∷ []) (rendered h)
          (sample (family ++ (codes "_sum" ++ labelled node_id (op ++ codes "}")))
              (show_sum h.sum_micros)
            ∷ sample (family ++ (codes "_count" ++ labelled node_id (op ++ codes "}")))
                (to_string h.count)
            ∷ lines)
          f o
          (All-append (Lacks newline) bounds (codes "+Inf" ∷ []) b
            (lacks-Lacks newline (codes "+Inf") refl, tt))
          (next
            (ending-IsLine family (codes "_sum") op (show_sum h.sum_micros) f refl o
              (sums h.sum_micros))
            (next
              (ending-IsLine family (codes "_count") op (to_string h.count) f refl o
                (to_string-IsValue h.count))
              k))
