-- ===== src/Stub/Paths/Laws.antt =====
-- The names that cpp/scripts/gene-gtest-stub.cpp makes of a path.
use c_workspace.Common.{
  ℕ, ◌≡◌, refl, sym, ap, ◌∙◌, ◌==◌, ◌||◌, Bool, true, false, Option, none, some, [], ◌∷◌, ◌++◌,
  append_assoc, append-nil, arith, All-append,
}
use c_workspace.Utils.Text.{Text, codes}
use c_workspace.Stub.{is_dot}
use c_workspace.Stub.Ctags.{begins_dot, is_some_text}
use c_workspace.Stub.Ctags.Laws.{Lacks, Dots, and_false}
use c_workspace.Stub.Paths.{
  match_stem, match_base, match_folder, regex_search, gene_gtest_file_path,
  get_class_name_from_path,
}

begins_dot_of : (x : ℕ) (s : Text) → Lacks x s → is_some_text s ≡ true → begins_dot s ≡ true
begins_dot_of x [] a h = absurd (ground arith)
begins_dot_of x (c ∷ s) a h = a.0.0

Lacks-Dots : (x : ℕ) (s : Text) → Lacks x s → Dots s
Lacks-Dots x [] a = tt
Lacks-Dots x (c ∷ s) a = (a.0.0, Lacks-Dots x s a.1)

-- Without a dot there is no extension.
stem_none : (group ext : Text) → Lacks 46 ext → match_stem group ext ≡ none
stem_none group [] a = refl
stem_none group (c ∷ ext) a =
    rw
      (
        a.0.0,
        match_stem,
        stem_none (group ++ (c ∷ [])) ext a.1,
        match_stem,
        a.0.1,
        and_false (is_some_text group),
      )
      refl

-- The group ends before the last dot.
stem_lem :
    (group stem ext : Text)
    → Dots stem
    → is_some_text (group ++ stem) ≡ true
    → Lacks 46 ext
    → is_some_text ext ≡ true
    → match_stem group (stem ++ (46 ∷ ext)) ≡ some (group ++ stem)
stem_lem group [] ext a h b k =
    let e : is_some_text group ≡ true = ap is_some_text (sym (append-nil group)) ∙ h in
    rw (stem_none (group ++ (46 ∷ [])) ext b, e, begins_dot_of 46 ext b k, append-nil group) refl
stem_lem group (c ∷ stem) ext a h b k =
    let more : match_stem (group ++ (c ∷ [])) (stem ++ (46 ∷ ext)) ≡ some (group ++ (c ∷ stem)) =
      stem_lem (group ++ (c ∷ [])) stem ext a.1
        (ap is_some_text (append_assoc group (c ∷ []) stem) ∙ h) b k
      ∙ ap some (append_assoc group (c ∷ []) stem) in
    rw (a.0, match_stem, more, match_stem) refl

-- The group ends before the first dot.
base_lem :
    (group base ext : Text)
    → Lacks 46 base
    → is_some_text (group ++ base) ≡ true
    → begins_dot ext ≡ true
    → match_base group (base ++ (46 ∷ ext)) ≡ some (group ++ base)
base_lem group [] ext a h k =
    let e : is_some_text group ≡ true = ap is_some_text (sym (append-nil group)) ∙ h in
    rw (e, match_base, k, append-nil group) refl
base_lem group (c ∷ base) ext a h k =
    let more : match_base (group ++ (c ∷ [])) (base ++ (46 ∷ ext)) ≡ some (group ++ (c ∷ base)) =
      base_lem (group ++ (c ∷ [])) base ext a.1
        (ap is_some_text (append_assoc group (c ∷ []) base) ∙ h) k
      ∙ ap some (append_assoc group (c ∷ []) base) in
    rw (a.0.1, match_base, and_false (is_some_text group), a.0.0) more

-- Without a slash there is no folder.
folder_none : (seen : Bool) (s : Text) → Lacks 47 s → match_folder seen s ≡ none
folder_none seen [] a = refl
folder_none seen (c ∷ s) a =
    rw (a.0.0, match_folder, folder_none true s a.1, match_folder, a.0.1, and_false seen) refl

-- The folder ends before the last slash.
folder_lem :
    (seen : Bool) (folder t base : Text)
    → Dots folder
    → (seen || is_some_text folder) ≡ true
    → Lacks 47 t
    → match_base [] t ≡ some base
    → match_folder seen (folder ++ (47 ∷ t)) ≡ some base
folder_lem true [] t base a h b e = rw (folder_none true t b, match_folder, e) refl
folder_lem false [] t base a h b e = absurd (ground arith)
folder_lem seen (c ∷ folder) t base a h b e =
    rw (a.0, match_folder, folder_lem true folder t base a.1 refl b e, match_folder) refl

search_found :
    (regex : Text → Option Text) (s group : Text)
    → is_some_text s ≡ true
    → regex s ≡ some group
    → regex_search regex s ≡ group
search_found regex [] group h e = absurd (ground arith)
search_found regex (c ∷ s) group h e = rw (e, regex_search) refl

is_some_text-left : (s t : Text) → is_some_text s ≡ true → is_some_text (s ++ t) ≡ true
is_some_text-left [] t h = absurd (ground arith)
is_some_text-left (c ∷ s) t h = refl

abbrev pub path_of : Text → Text → Text → Text
path_of folder base ext = folder ++ (47 ∷ (base ++ (46 ∷ ext)))

-- Of a path with a folder, a name, and an extension, with no dot and no slash in the last two, the class has
-- the name, and the test file stands below "test", in the folder, with "_unittest.cc" behind the name.
pub paths_lem :
    (folder base ext : Text)
    → is_some_text folder ≡ true
    → Dots folder
    → is_some_text base ≡ true
    → Lacks 46 base
    → Lacks 47 base
    → is_some_text ext ≡ true
    → Lacks 46 ext
    → Lacks 47 ext
    → (get_class_name_from_path (path_of folder base ext) ≡ base)
      × (gene_gtest_file_path (path_of folder base ext)
          ≡ codes "test/" ++ (folder ++ (47 ∷ (base ++ codes "_unittest.cc"))))
unfolding get_class_name_from_path gene_gtest_file_path
paths_lem folder base ext f fd b bd bs e ed es =
    let path = path_of folder base ext in
    let some' = is_some_text-left folder (47 ∷ (base ++ (46 ∷ ext))) f in
    let tail : Lacks 47 (base ++ (46 ∷ ext)) =
      All-append (λ c. (is_dot c ≡ true) × ((c == 47) ≡ false)) base (46 ∷ ext) bs
        ((refl, refl), es) in
    let class =
      folder_lem false folder (base ++ (46 ∷ ext)) base fd f tail
        (base_lem [] base ext bd b (begins_dot_of 46 ext ed e)) in
    let stem = folder ++ (47 ∷ base) in
    let whole : stem ++ (46 ∷ ext) ≡ path = append_assoc folder (47 ∷ base) (46 ∷ ext) in
    let dots : Dots stem =
      All-append (λ c. is_dot c ≡ true) folder (47 ∷ base) fd (refl, Lacks-Dots 46 base bd) in
    let found =
      ap (match_stem []) (sym whole)
      ∙ stem_lem [] stem ext dots (is_some_text-left folder (47 ∷ base) f) ed e in
    (
      search_found (match_folder false) path base some' class,
      ap (λ s. codes "test/" ++ (s ++ codes "_unittest.cc"))
            (search_found (match_stem []) path stem some' found)
          ∙ ap (λ s. codes "test/" ++ s) (append_assoc folder (47 ∷ base) (codes "_unittest.cc")),
    )
