-- ===== src/Utils/Generator/Laws.antt =====
-- What `_urlGenerator` of cpp/demo.cpp makes of a list of names.
use c_workspace.Common.{
  ◌≤◌, ◌≡◌, refl, sym, subst, ap, ◌∙◌, some, ◌>>=◌, List, [], ◌∷◌, ◌++◌, arith, length,
}
use c_workspace.Utils.Text.{Text, codes, same}
use c_workspace.Utils.Dispatcher.{Order, dispatcher, proceed}
use c_workspace.Utils.Dispatcher.Registry.{view, IsDispatcher, IsOrder, IsChosen}
use c_workspace.Utils.Dispatcher.Laws.{add_lamda_lem}
use c_workspace.Utils.Dispatcher.Proceeds.{proceed_lem}
use c_workspace.Utils.Combinator.{transform, map, filter, reduce}
use c_workspace.Utils.Generator.{
  ProcessParam, ProcessReturn, is_username, username, is_pwd, pwd, is_ip, ip, url_generator, part,
  url_param_str,
}
use c_workspace.Utils.Generator.Made.{
  chosen_made, in_turn, ip_process, made, pwd_process, registered, with_new,
}
use c_workspace.Utils.Generator.Texts.{joined_parts, text_made, text_of, texts, url_parts}

module _ (order : Order ProcessReturn ProcessParam) (law : IsOrder order) where
  generator_shown :
      IsDispatcher (url_generator order)
      × ((name : Text) → view (url_generator order) name ≡ registered name)
      × ((url_generator order).none_process ≡ (λ x. some ([], [])))
  unfolding url_generator
  generator_shown =
      let start = dispatcher {R = ProcessReturn} {D = ProcessParam} (λ x. some ([], [])) in
      let (v, f, e) =
        add_lamda_lem order law (codes "username") is_username username start
          (record { distinct = tt; stored = λ name o e. absurd (ground arith) }) in
      let (w, g, k) = add_lamda_lem order law (codes "pwd") is_pwd pwd _ v in
      let (u, h, l) = add_lamda_lem order law (codes "ip") is_ip ip _ w in
      (
        u,
        λ name.
            h name
            ∙ ap (with_new (same (codes "ip") name) ip_process)
                (g name ∙ ap (with_new (same (codes "pwd") name) pwd_process) (f name))
            ∙ in_turn (same (codes "username") name) (same (codes "pwd") name)
                (same (codes "ip") name),
        sym (e ∙ k ∙ l),
      )

  proceed-made : (x : ProcessParam) → proceed (url_generator order) x ≡ some (made x)
  proceed-made x =
      let (v, f, e) = generator_shown in
      let (r, g, c) = proceed_lem (url_generator order) x v in
      g
      ∙ ap some (
          chosen_made x r (
            subst (λ m. IsChosen (λ x. some ([], [])) m x r) (λ i name. f name i)
              (subst (λ n. IsChosen n (view (url_generator order)) x r) e c)))

  part-text :
      (data_to_process name : Text)
      → 3 ≤ length data_to_process
      → part (url_generator order) data_to_process name ≡ some (text_of data_to_process name)
  unfolding part
  part-text data_to_process name h =
      ap (λ o. o >>= λ result. result >>= λ p. some (p.0 ++ (codes "=" ++ p.1)))
        (proceed-made (name, data_to_process))
      ∙ text_made data_to_process name h

  transform-texts :
      (data_to_process : Text) (names : List Text)
      → 3 ≤ length data_to_process
      → transform (part (url_generator order) data_to_process) names
        ≡ some (texts data_to_process names)
  transform-texts data_to_process [] h = refl
  transform-texts data_to_process (name ∷ names) h =
      rw (part-text data_to_process name h, ◌>>=◌, transform-texts data_to_process names h) refl

  -- Whatever the order in which the processes are tried, `_urlGenerator` joins the parts of the names that
  -- it knows, in the order of the names, each with a "&" behind it, and nothing of the others, where the
  -- data have at least the three bytes that `substr` cuts off.
  pub url_param_str_lem :
      (names : List Text) (data_to_process : Text)
      → 3 ≤ length data_to_process
      → url_param_str order names data_to_process ≡ some (url_parts data_to_process names)
  unfolding url_param_str map filter reduce
  url_param_str_lem names data_to_process h =
      rw (transform-texts data_to_process names h) (ap some (joined_parts data_to_process [] names))
