-- ===== src/Utils/Examples.antt =====
-- Runs of cpp/src/utils and of `_urlGenerator` in cpp/demo.cpp.
use mathlib.Core.List.{Permᴰ}
use mathlib.Core.List.Permᴰ
use c_workspace.Common.{
  ℕ, ◌+◌, ◌*◌, ◌≤◌, ◌≡◌, ◌≢◌, ◌↔◌, refl, ◌==◌, ltb, true, false, if◌then◌else◌, none, some, List,
  [], ◌∷◌, ◌++◌, arith, length, All, Returns,
}
use c_workspace.Utils.Text.{Text, codes, string_to_upper, replace_all, url_encode}
use c_workspace.Utils.Text.Url.{outside, decode_from, IsUrlByte, url_encode_lem}
use c_workspace.Utils.Text.Replace.{replace_all-ends, replace_all-diverges}
use c_workspace.Utils.Text.Template.{fill, replace_all-fill}
use c_workspace.Utils.Dispatcher.{Process, Order, dispatcher}
use c_workspace.Utils.Dispatcher.Registry.{IsOrder}
use c_workspace.Utils.Dispatcher.Calls.{Call, calls, Steps, dispatches_refine}
use c_workspace.Utils.Pipe.{Pipe, new_pipe, add_step_at, remove_step_at, get_step_at, start}
use c_workspace.Utils.Pipe.Steps.{IsAscending}
use c_workspace.Utils.Pipe.Laws.{add_all, steps_lem, start_lem}
use c_workspace.Utils.Combinator.{Combinator, all, any, none_that, filter, reduce}
use c_workspace.Utils.Combinator.Laws.{Some, filter_lem}
use c_workspace.Utils.Generator.{url_param_str}
use c_workspace.Utils.Generator.Laws.{url_param_str_lem}

encoded : url_encode (codes "a+b c") ≡ codes "a%2bb%20c"
unfolding url_encode
encoded = refl

url_encode_lem_example :
    (decode_from outside (url_encode (codes "a b")) ≡ some (codes "a b"))
    × All IsUrlByte (url_encode (codes "a b"))
    × (length (url_encode (codes "a b")) ≤ 9)
url_encode_lem_example =
    url_encode_lem (codes "a b") (omega arith, (omega arith, (omega arith, tt)))

-- Each "$n" by "x", of which "$" is no byte.
replace_all-ends_example :
    Returns
      (replace_all 3 (codes "a$n$n") (codes "$n") (codes "x"))
      (λ o. (o.0 ≡ false) × ((before after : Text) → o.1 ≢ before ++ (codes "$n" ++ after)))
replace_all-ends_example =
    replace_all-ends 3 36 (codes "a$n$n") (codes "$n") (codes "x") (omega arith) refl (omega arith)

replaced : replace_all 3 (codes "a$n$n") (codes "$n") (codes "x") ≡ some (false, codes "axx")
unfolding replace_all
replaced = refl

-- "a" by "aa" in "ba".
replace_all-diverges_example : replace_all 9 (codes "ba") (codes "a") (codes "aa") ≡ none
replace_all-diverges_example =
    replace_all-diverges 9 (codes "ba") (codes "a") (codes "aa")
      (record { before = []; after = codes "a"; parts = refl })
      (record { before = codes "b"; after = []; parts = refl })

-- Two marks in a template.
replace_all-fill_example :
    replace_all 3
      (fill (codes "$n") (codes "a") (codes "b" ∷ codes "c" ∷ []))
      (codes "$n")
      (codes "xy")
    ≡ some (false, codes "axybxyc")
replace_all-fill_example =
    replace_all-fill 3 36 (codes "n") (codes "xy") (codes "a") (codes "b" ∷ codes "c" ∷ []) refl
      refl (refl, (refl, tt)) (omega arith)

-- A process for small numbers, and what keeps a new item in front or puts it behind the others.
abbrev small : Process ℕ ℕ
small = record {
  name = codes "small";
  is_enable = true;
  can_proceed = λ n. ltb n 5;
  proceed = λ n. some (n * 2);
}

abbrev in_front : Order ℕ ℕ
in_front items = items

in_front-IsOrder : IsOrder in_front
in_front-IsOrder items = Permᴰ.refl items

abbrev behind : Order ℕ ℕ
behind [] = []
behind (item ∷ items) = items ++ (item ∷ [])

behind-IsOrder : IsOrder behind
behind-IsOrder [] = Permᴰ.nil
behind-IsOrder (item ∷ items) =
    Permᴰ.trans (Permᴰ.cons refl (Permᴰ.symm (Permᴰ.append-nil items)))
      (Permᴰ.symm (Permᴰ.middle item items []))

abbrev session : List (Order ℕ ℕ × Call ℕ ℕ)
session =
    (in_front, Call.add small)
    ∷ (behind, Call.add_by_lamda (codes "all") (λ n. true) (λ n. some n))
    ∷ (in_front, Call.disable (codes "small"))
    ∷ (in_front, Call.run 3)
    ∷ []

dispatches_refine_example :
    Steps (λ n. none) session (λ name. none) (calls session (dispatcher (λ n. none)))
dispatches_refine_example =
    dispatches_refine (λ n. none) session
      (in_front-IsOrder, (behind-IsOrder, (in_front-IsOrder, (in_front-IsOrder, tt))))

abbrev adds : List (ℕ × (ℕ → ℕ))
adds = (1, λ n. n + 3) ∷ (2, λ n. n * 2) ∷ []

abbrev adds_backwards : List (ℕ × (ℕ → ℕ))
adds_backwards = (2, λ n. n * 2) ∷ (1, λ n. n + 3) ∷ []

abbrev pipe : Pipe ℕ ℕ
pipe = record { steps = adds }

steps_lem_example :
    IsAscending (add_step_at 2 (λ n. n) pipe).steps
    × IsAscending (remove_step_at 2 pipe).steps
    × (get_step_at 2 (add_step_at 2 (λ n. n) pipe) ≡ (
        if 2 == 2
        then (elim (get_step_at 2 pipe) [ none ↦ some (λ n. n) | some old ↦ some old ])
        else get_step_at 2 pipe))
    × (get_step_at 2 (remove_step_at 2 pipe) ≡ (if 2 == 2 then none else get_step_at 2 pipe))
steps_lem_example = steps_lem 2 2 (λ n. n) pipe ((omega arith, tt), (tt, tt))

start_lem_example : start (λ n. n) (λ n. n) (add_all adds_backwards new_pipe) 4 ≡ 14
start_lem_example =
    start_lem (λ n. n) (λ n. n) adds adds_backwards ((omega arith, tt), (tt, tt))
      (Permᴰ.swap refl refl) 4

abbrev numbers : Combinator ℕ
numbers = record { real = 1 ∷ 7 ∷ 3 ∷ [] }

filter_lem_example :
    ((all (λ n. n == 7) (filter (λ n. ltb n 5) numbers) ≡ true)
      ↔ All (λ n. ltb n 5 ≡ true → (n == 7) ≡ true) numbers.real)
    × ((any (λ n. n == 7) (filter (λ n. ltb n 5) numbers) ≡ true)
        ↔ Some (λ n. ltb n 5) (λ n. n == 7) numbers.real)
    × ((none_that (λ n. n == 7) (filter (λ n. ltb n 5) numbers) ≡ true)
        ↔ All (λ n. ltb n 5 ≡ true → (n == 7) ≡ false) numbers.real)
    × (reduce 0 ◌+◌ (filter (λ n. ltb n 5) numbers) ≡ 4)
filter_lem_example = filter_lem (λ n. ltb n 5) (λ n. n == 7) ◌+◌ 0 numbers

abbrev names : List Text
names = codes "username" ∷ codes "pwd" ∷ codes "ip" ∷ codes "jsdfjsdlkfjldsjf" ∷ []

-- The run of demo.cpp.
url_param_str_lem_example :
    url_param_str (λ items. items) names (codes "this is test data")
    ≡ some (codes "username=s is test data&pwd=THIS IS TEST DATA&ip=10.0.0.27&")
unfolding string_to_upper
url_param_str_lem_example =
    url_param_str_lem (λ items. items) (λ items. Permᴰ.refl items) names (codes "this is test data")
      (omega arith)
