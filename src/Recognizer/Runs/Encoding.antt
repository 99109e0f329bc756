-- ===== src/Recognizer/Runs/Encoding.antt =====
-- What a run-length encoding of a row is, and that `_get_bw_continuous_seq_of_row` computes it.
use c_workspace.Common.{
  ℕ, suc, ◌+◌, ◌≤◌, ◌<◌, ◌≡◌, refl, ap, ◌∙◌, true, false, ◌==◌, Bool-cases, inl, inr, none, some,
  List, [], ◌∷◌, ◌++◌, append_assoc, arith, length, length-append, write-append, overlay, write,
  ◌>>=◌, write-none,
}
use c_workspace.Recognizer.Image.{Point}
use c_workspace.Recognizer.Runs.{ColorSeqUnit, continuous_loop, get_bw_continuous_seq_of_row}

abbrev pub unit : ℕ → Point → ColorSeqUnit
unit count end_p = record { count = count; end_p = end_p }

-- The runs of a row, of which `count` points that end with `last_p` are read.
unfoldable pub runs_from : Point → ℕ → List Point → List ColorSeqUnit
runs_from last_p count [] = unit count last_p ∷ []
runs_from last_p count (p ∷ row) = elim (p.c == last_p.c) [
  | true ↦ runs_from p (count + 1) row
  | false ↦ unit count last_p ∷ runs_from p 1 row
]

-- The runs of a row.
abbrev pub runs : List Point → List ColorSeqUnit
runs [] = []
runs (p ∷ row) = runs_from p 1 row

overlay-runs_from :
    (last_p : Point) (count : ℕ) (row : List Point) (m m' : ColorSeqUnit) (ms : List ColorSeqUnit)
    → overlay (runs_from last_p count row) (m ∷ ms) ≡ overlay (runs_from last_p count row) (m' ∷ ms)
unfolding runs_from
overlay-runs_from last_p count [] m m' ms = refl
overlay-runs_from last_p count (p ∷ row) m m' ms = elim (Bool-cases (p.c == last_p.c)) [
  | inl e ↦ rw (e, runs_from) (overlay-runs_from p (count + 1) row m m' ms)
  | inr e ↦ rw (e, runs_from) refl
]

pub runs_from_pos :
    (last_p : Point) (count : ℕ) (row : List Point) → 1 ≤ length (runs_from last_p count row)
unfolding runs_from
runs_from_pos last_p count [] = omega arith
runs_from_pos last_p count (p ∷ row) = ground (arith, runs_from_pos p (count + 1) row)

module _ (p last_p : Point) (count : ℕ) (row : List Point) where
  pub runs_from-same :
      (p.c == last_p.c) ≡ true → runs_from last_p count (p ∷ row) ≡ runs_from p (count + 1) row
  unfolding runs_from
  runs_from-same e = rw (e, runs_from) refl

  pub runs_from-other :
      (p.c == last_p.c) ≡ false
      → runs_from last_p count (p ∷ row) ≡ unit count last_p ∷ runs_from p 1 row
  unfolding runs_from
  runs_from-other e = rw (e, runs_from) refl

  module _ (i : ℕ) (seq : List ColorSeqUnit) where
    continuous_loop-same :
        (p.c == last_p.c) ≡ true
        → continuous_loop (p ∷ row) last_p count i seq
          ≡ (write seq i (unit (count + 1) p) >>= λ seq'. continuous_loop row p (count + 1) i seq')
    unfolding continuous_loop
    continuous_loop-same e = rw (e, continuous_loop) refl

    continuous_loop-other :
        (p.c == last_p.c) ≡ false
        → continuous_loop (p ∷ row) last_p count i seq
          ≡ (write seq (i + 1) (unit 1 p) >>= λ seq'. continuous_loop row p 1 (i + 1) seq')
    unfolding continuous_loop
    continuous_loop-other e = rw (e, continuous_loop) refl

-- What the loop from the unit at index `i` on leaves, where the units fit, and where they do not.
abbrev Fits : List Point → Point → ℕ → List ColorSeqUnit → List ColorSeqUnit → ℕ → Type 0
Fits row last_p count done junk i =
    (length (runs_from last_p count row) ≤ suc (length junk)
      → (n : ℕ) → i + length (runs_from last_p count row) ≡ n + 1
      → continuous_loop row last_p count i (done ++ (unit count last_p ∷ junk))
        ≡ some (n, done ++ overlay (runs_from last_p count row) (unit count last_p ∷ junk)))
    × (suc (length junk) < length (runs_from last_p count row)
        → continuous_loop row last_p count i (done ++ (unit count last_p ∷ junk)) ≡ none)

module _ (p last_p : Point) (count : ℕ) (row : List Point) (done : List ColorSeqUnit) (i : ℕ)
    (ei : i ≡ length done) where
  same-Fits :
      (junk : List ColorSeqUnit)
      → (p.c == last_p.c) ≡ true
      → Fits row p (count + 1) done junk i
      → Fits (p ∷ row) last_p count done junk i
  same-Fits junk e f =
      let r = runs_from-same p last_p count row e in
      let w = write-append done (unit count last_p) junk i (unit (count + 1) p) ei in
      (
        (λ h n en.
            rw (continuous_loop-same p last_p count row _ _ e, w)
              (f.0 (rw r at h) n (rw r at en)
                ∙ rw
                    (
                      r,
                      overlay-runs_from p (count + 1) row (unit count last_p) (unit (count + 1) p)
                          junk,
                    )
                    refl)),
        (λ h. rw (continuous_loop-same p last_p count row _ _ e, w) (f.1 (rw r at h))),
      )

  other_full : (p.c == last_p.c) ≡ false → Fits (p ∷ row) last_p count done [] i
  other_full e =
      let r = runs_from-other p last_p count row e in
      let u = unit count last_p in
      let w : write (done ++ (u ∷ [])) (i + 1) (unit 1 p) ≡ none =
        write-none (done ++ (u ∷ [])) (i + 1) (unit 1 p)
          (omega (arith, length-append done (u ∷ []))) in
      (
        (λ h n en. absurd (omega (arith, ap length r, runs_from_pos p 1 row))),
        (λ h. rw (continuous_loop-other p last_p count row _ _ e, w) refl),
      )

  other-Fits :
      (j : ColorSeqUnit) (junk : List ColorSeqUnit)
      → (p.c == last_p.c) ≡ false
      → Fits row p 1 (done ++ (unit count last_p ∷ [])) junk (i + 1)
      → Fits (p ∷ row) last_p count done (j ∷ junk) i
  other-Fits j junk e f =
      let r = runs_from-other p last_p count row e in
      let u = unit count last_p in
      let w : write (done ++ (u ∷ j ∷ junk)) (i + 1) (unit 1 p)
          ≡ some (done ++ (u ∷ unit 1 p ∷ junk)) =
        (rw (append_assoc done (u ∷ []) (j ∷ junk), append_assoc done (u ∷ []) (unit 1 p ∷ junk)) at
          (write-append (done ++ (u ∷ [])) j junk (i + 1) (unit 1 p)
            (omega (arith, length-append done (u ∷ []))))) in
      let g = rw (append_assoc done (u ∷ []) (unit 1 p ∷ junk)) at f.1 in
      (
        (λ h n en.
            rw (continuous_loop-other p last_p count row _ _ e, w)
              ((rw
                  (
                    append_assoc done (u ∷ []) (unit 1 p ∷ junk),
                    append_assoc done (u ∷ []) (overlay (runs_from p 1 row) (unit 1 p ∷ junk)),
                  )
                  at (f.0 (omega (arith, ap length r)) n (omega (arith, ap length r))))
                ∙ rw (r, overlay-runs_from p 1 row j (unit 1 p) junk) refl)),
        (λ h.
            rw (continuous_loop-other p last_p count row _ _ e, w)
              (g (omega (arith, ap length r)))),
      )

continuous_loop-Fits :
    (row : List Point) (last_p : Point) (count : ℕ) (done junk : List ColorSeqUnit) (i : ℕ)
    → i ≡ length done
    → Fits row last_p count done junk i
continuous_loop-Fits [] last_p count done junk i ei =
    unfold continuous_loop runs_from in
    ((λ h n en. let e : i ≡ n = omega arith in rw e refl), (λ h. absurd (omega arith)))
continuous_loop-Fits (p ∷ row) last_p count done [] i ei = elim (Bool-cases (p.c == last_p.c)) [
  | inl e ↦
      same-Fits p last_p count row done i ei [] e
        (continuous_loop-Fits row p (count + 1) done [] i ei)
  | inr e ↦ other_full p last_p count row done i ei e
]
continuous_loop-Fits (p ∷ row) last_p count done (j ∷ junk) i ei =
    elim (Bool-cases (p.c == last_p.c)) [
      | inl e ↦
          same-Fits p last_p count row done i ei (j ∷ junk) e
            (continuous_loop-Fits row p (count + 1) done (j ∷ junk) i ei)
      | inr e ↦ other-Fits p last_p count row done i ei j junk e (
          continuous_loop-Fits row p 1 (done ++ (unit count last_p ∷ [])) junk (i + 1)
            (omega (arith, length-append done (unit count last_p ∷ []))))
    ]

-- The function leaves the runs of the row at the start of its memory and returns the index of the
-- last, exactly where they fit; else it writes out of range.
pub get_bw_continuous_seq_of_row_lem :
    (p : Point) (row : List Point) (memory : List ColorSeqUnit)
    → (length (runs (p ∷ row)) ≤ length memory
        → (n : ℕ) → length (runs (p ∷ row)) ≡ n + 1
        → get_bw_continuous_seq_of_row (p ∷ row) memory ≡ some (n, overlay (runs (p ∷ row)) memory))
      × (length memory < length (runs (p ∷ row))
          → get_bw_continuous_seq_of_row (p ∷ row) memory ≡ none)
unfolding get_bw_continuous_seq_of_row
get_bw_continuous_seq_of_row_lem p row [] =
    ((λ h. absurd (omega (arith, runs_from_pos p 1 row))), (λ h. refl))
get_bw_continuous_seq_of_row_lem p row (m ∷ memory) =
    let f = continuous_loop-Fits row p 1 [] memory 0 refl in
    (
      (λ h n e.
          f.0 h n (omega (arith, e)) ∙ rw (overlay-runs_from p 1 row (unit 1 p) m memory) refl),
      (λ h. f.1 h),
    )
