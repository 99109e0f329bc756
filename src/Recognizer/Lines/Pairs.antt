-- ===== src/Recognizer/Lines/Pairs.antt =====
-- `_locate_col_line_coord_range` pairs the runs of a row up.
use c_workspace.Common.{
  ℕ, zero, suc, ◌+◌, ◌/◌, ◌≤◌, ◌≡◌, ap, ◌∙◌, true, false, some, List, [], ◌∷◌, ◌++◌, arith, length,
  append_assoc, length-append, get_elem?, get_elem?-append, write, write-append, overlay, All,
}
use c_workspace.Recognizer.Image.{Range}
use c_workspace.Recognizer.Runs.{ColorSeqUnit}
use c_workspace.Recognizer.Lines.{skipped, locate_loop}

abbrev pub range_of : ColorSeqUnit → ColorSeqUnit → Range
range_of u v = record { from = u.end_p; to = v.end_p }

-- The ranges from the end of each run at an even index to the end of the next.
abbrev pub pairs : List ColorSeqUnit → List Range
pairs [] = []
pairs (u ∷ []) = []
pairs (u ∷ v ∷ us) = range_of u v ∷ pairs us

-- A last run with no partner is paired with what the memory holds behind it: that pair is skipped.
abbrev pub IsStaleSkipped : List ColorSeqUnit → List ColorSeqUnit → Type 0
IsStaleSkipped [] rest = Unit
IsStaleSkipped (u ∷ []) [] = ⊥
IsStaleSkipped (u ∷ []) (z ∷ rest) = skipped (range_of u z) ≡ true
IsStaleSkipped (u ∷ v ∷ us) rest = IsStaleSkipped us rest

-- Each run has a partner: what the memory holds behind the runs is not read.
abbrev pub IsPaired : List ColorSeqUnit → Type 0
IsPaired [] = Unit
IsPaired (u ∷ []) = ⊥
IsPaired (u ∷ v ∷ us) = IsPaired us

pub paired-IsStaleSkipped : (us rest : List ColorSeqUnit) → IsPaired us → IsStaleSkipped us rest
paired-IsStaleSkipped [] rest h = tt
paired-IsStaleSkipped (u ∷ []) rest h = absurd h
paired-IsStaleSkipped (u ∷ v ∷ us) rest h = paired-IsStaleSkipped us rest h

next_elem :
    (before : List ColorSeqUnit) (u v : ColorSeqUnit) (rest : List ColorSeqUnit) (i : ℕ)
    → i ≡ length before
    → get_elem? (before ++ (u ∷ v ∷ rest)) (i + 1) ≡ some v
next_elem before u v rest i e = rw (append_assoc before (u ∷ []) (v ∷ rest)) at (
    get_elem?-append (before ++ (u ∷ [])) v rest (i + 1)
      (omega (arith, length-append before (u ∷ []))))

module _ (offset : ℕ) where
  locate_step :
      (seq : List ColorSeqUnit) (rounds i range_count : ℕ) (ranges ranges' : List Range)
      (u v : ColorSeqUnit)
      → get_elem? seq i ≡ some u
      → get_elem? seq (i + 1) ≡ some v
      → skipped (range_of u v) ≡ false
      → write ranges (offset + range_count) (range_of u v) ≡ some ranges'
      → locate_loop seq offset (suc rounds) i range_count ranges
        ≡ locate_loop seq offset rounds (i + 2) (range_count + 1) ranges'
  unfolding locate_loop
  locate_step seq rounds i range_count ranges ranges' u v e f h w = ground (arith, e, f, h, w)

  locate_skip :
      (seq : List ColorSeqUnit) (rounds i range_count : ℕ) (ranges : List Range)
      (u v : ColorSeqUnit)
      → get_elem? seq i ≡ some u
      → get_elem? seq (i + 1) ≡ some v
      → skipped (range_of u v) ≡ true
      → locate_loop seq offset (suc rounds) i range_count ranges
        ≡ locate_loop seq offset rounds (i + 2) range_count ranges
  unfolding locate_loop
  locate_skip seq rounds i range_count ranges u v e f h = ground (arith, e, f, h)

  -- The loop writes the pairs behind what is there, and reads nothing else but one run behind the
  -- last where that has no partner.
  pub locate_loop-pairs :
      (us before rest : List ColorSeqUnit) (rounds i range_count : ℕ) (done junk : List Range)
      → i ≡ length before
      → offset + range_count ≡ length done
      → rounds ≡ (length us + 1) / 2
      → All (λ r. skipped r ≡ false) (pairs us)
      → IsStaleSkipped us rest
      → length (pairs us) ≤ length junk
      → locate_loop (before ++ (us ++ rest)) offset rounds i range_count (done ++ junk)
        ≡ some (range_count + length (pairs us), done ++ overlay (pairs us) junk)
  locate_loop-pairs [] before rest zero i rc done junk ei ed er hs st hl =
      unfold locate_loop in (ap (λ n. some (n, done ++ junk)) (omega arith))
  locate_loop-pairs [] before rest (suc n) i rc done junk ei ed er hs st hl = absurd (omega arith)
  locate_loop-pairs (u ∷ []) before [] rounds i rc done junk ei ed er hs st hl = absurd st
  locate_loop-pairs (u ∷ []) before (z ∷ rest) zero i rc done junk ei ed er hs st hl =
      absurd (omega arith)
  locate_loop-pairs (u ∷ []) before (z ∷ rest) (suc zero) i rc done junk ei ed er hs st hl =
      locate_skip (before ++ (u ∷ z ∷ rest)) 0 i rc (done ++ junk) u z
        (get_elem?-append before u (z ∷ rest) i ei) (next_elem before u z rest i ei) st
      ∙ unfold locate_loop in (ap (λ n. some (n, done ++ junk)) (omega arith))
  locate_loop-pairs (u ∷ []) before (z ∷ rest) (suc (suc n)) i rc done junk ei ed er hs st hl =
      absurd (omega arith)
  locate_loop-pairs (u ∷ v ∷ us) before rest zero i rc done junk ei ed er hs st hl =
      absurd (omega arith)
  locate_loop-pairs (u ∷ v ∷ us) before rest (suc n) i rc done [] ei ed er hs st hl =
      absurd (omega arith)
  locate_loop-pairs (u ∷ v ∷ us) before rest (suc n) i rc done (j ∷ junk) ei ed er hs st hl =
      locate_step (before ++ (u ∷ v ∷ (us ++ rest))) n i rc (done ++ (j ∷ junk))
        (done ++ (range_of u v ∷ junk)) u v (get_elem?-append before u (v ∷ (us ++ rest)) i ei)
        (next_elem before u v (us ++ rest) i ei) hs.0
        (write-append done j junk (offset + rc) (range_of u v) ed)
      ∙ (rw
          (
            append_assoc before (u ∷ v ∷ []) (us ++ rest),
            append_assoc done (range_of u v ∷ []) junk,
            append_assoc done (range_of u v ∷ []) (overlay (pairs us) junk),
          )
          at
          (locate_loop-pairs us (before ++ (u ∷ v ∷ [])) rest n (i + 2) (rc + 1)
            (done ++ (range_of u v ∷ [])) junk (omega (arith, length-append before (u ∷ v ∷ [])))
            (omega (arith, length-append done (range_of u v ∷ []))) (omega arith) hs.1 st
            (omega arith)))
      ∙ ap (λ n. some (n, done ++ (range_of u v ∷ overlay (pairs us) junk))) (omega arith)
