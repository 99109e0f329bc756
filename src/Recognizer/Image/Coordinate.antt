-- ===== src/Recognizer/Image/Coordinate.antt =====
-- `_make_standard_coordinate` stays in its memory, and sets each point of the picture.
use c_workspace.Common.{
  ℕ, zero, suc, ◌+◌, ◌*◌, ◌<◌, ◌≡◌, refl, ap, subst, ◌∙◌, some, List, get_elem?, get_or, set,
  length, length-set, get_elem?-set_self, get_elem?-set_ne, get_elem?-eq-get_or, write-set, arith,
  Returns,
}
use native.Mathlib.Decide.{dec_lt}
use c_workspace.Recognizer.Image.{Point, color, columns_loop, rows_loop, make_standard_coordinate}

-- The point at column `x` of row `row`: three bytes of the picture, of which the rows follow one
-- another.
abbrev pub pixel : List ℕ → ℕ → ℕ → ℕ → Point
pixel arr width row x =
    let start = row * (width * 3) + x * 3 in
    record {
      x = x;
      y = row;
      c = color (get_or arr (start + 0) 0) (get_or arr (start + 1) 0) (get_or arr (start + 2) 0);
    }

-- A row and a column are known from the index.
pub index_injective :
    (w r c row x : ℕ) → c < w → x < w → r * w + c ≡ row * w + x → (r ≡ row) × (c ≡ x)
index_injective w r c row x hc hx e = elim (dec_lt r row) [
  | yes p ↦ absurd (grind arith)
  | no p ↦ elim (dec_lt row r) [
    | yes q ↦ absurd (grind arith)
    | no q ↦
        let e' : r ≡ row = omega arith in
        (e', let e2 : r * w ≡ row * w = ap (λ t. t * w) e' in omega arith)
  ]
]

module _ (arr : List ℕ) (w h : ℕ) (full : length arr ≡ h * (w * 3)) where
  -- The points before index `p` are set.
  record IsFilled (p : ℕ) (coordinate : List Point) : Type 0 where
    size : length coordinate ≡ h * w
    points :
        (r c : ℕ)
        → c < w
        → r * w + c < p
        → get_elem? coordinate (r * w + c) ≡ some (pixel arr w r c)

  in_range : (row x : ℕ) → row < h → x < w → row * w + x < h * w
  in_range row x hr hx = grind arith

  set-IsFilled :
      (row x : ℕ) (co : List Point)
      → row < h
      → x < w
      → IsFilled (row * w + x) co
      → IsFilled (row * w + (x + 1)) (set co (row * w + x) (pixel arr w row x))
  set-IsFilled row x co hr hx f = record {
    size = length-set co _ _ ∙ f.size;
    points = λ r c hc hp. elim (dec_lt (r * w + c) (row * w + x)) [
      | yes p ↦ get_elem?-set_ne co (row * w + x) (r * w + c) _ (omega arith) ∙ f.points r c hc p
      | no p ↦
          let e : r * w + c ≡ row * w + x = omega arith in
          let (er, ec) = index_injective w r c row x hc hx e in
          rw (er, ec)
            (get_elem?-set_self co (row * w + x) _ (omega (arith, in_range row x hr hx, f.size)))
    ];
  }

  columns_loop-IsFilled :
      (row rounds x : ℕ) (co : List Point)
      → row < h
      → x + rounds ≡ w
      → IsFilled (row * w + x) co
      → Returns (columns_loop arr w row rounds x co) (IsFilled (row * w + w))
  unfolding columns_loop
  columns_loop-IsFilled row zero x co hr e f =
      (co, refl, subst (λ p. IsFilled p co) (omega arith) f)
  columns_loop-IsFilled row (suc rounds) x co hr e f =
      let hx : x < w = omega arith in
      let hp : row * w + x < h * w = in_range row x hr hx in
      let start = row * (w * 3) + x * 3 in
      rw
        (
          get_elem?-eq-get_or arr (start + 0) 0 (omega (arith, full)),
          get_elem?-eq-get_or arr (start + 1) 0 (omega (arith, full)),
          get_elem?-eq-get_or arr (start + 2) 0 (omega (arith, full)),
          write-set co (row * w + x) (pixel arr w row x) (omega (arith, f.size)),
        )
        (columns_loop-IsFilled row rounds (x + 1) _ hr (omega arith)
          (set-IsFilled row x co hr hx f))

  rows_loop-IsFilled :
      (rounds row : ℕ) (co : List Point)
      → row + rounds ≡ h
      → IsFilled (row * w) co
      → Returns (rows_loop arr w rounds row co) (IsFilled (h * w))
  unfolding rows_loop
  rows_loop-IsFilled zero row co e f = (co, refl, subst (λ p. IsFilled (p * w) co) (omega arith) f)
  rows_loop-IsFilled (suc rounds) row co e f =
      let (co', e', f') =
        columns_loop-IsFilled row w 0 co (omega arith) (omega arith)
          (subst (λ p. IsFilled p co) (omega arith) f) in
      rw e' (
        rows_loop-IsFilled rounds (row + 1) co' (omega arith)
          (subst (λ p. IsFilled p co') (omega arith) f'))

-- `_make_standard_coordinate` on a picture of `h` rows of `w` pixels reads and writes in range only,
-- and sets the point of each row and column from the three bytes of its pixel, whatever the memory
-- held.
pub make_standard_coordinate_lem :
    (arr : List ℕ) (w h : ℕ) (memory : List Point)
    → length arr ≡ h * (w * 3)
    → length memory ≡ h * w
    → Returns (make_standard_coordinate arr w h memory) (λ coordinate.
      (length coordinate ≡ h * w)
      × ((r c : ℕ) → r < h → c < w → get_elem? coordinate (r * w + c) ≡ some (pixel arr w r c)))
unfolding make_standard_coordinate
make_standard_coordinate_lem arr w h memory full size =
    let (co, e, f) =
      rows_loop-IsFilled arr w h full h 0 memory (omega arith)
        (record { size = size; points = λ r c hc hp. absurd (omega arith) }) in
    (co, e, (f.size, λ r c hr hc. f.points r c hc (in_range arr w h full r c hr hc)))
